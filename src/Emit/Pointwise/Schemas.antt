-- ===== src/Emit/Pointwise/Schemas.antt =====
-- support/asm_emitter.h: the schemas of pointwise operations. A field with the format of a float is
-- a field here, whose argument is the text of the float.
use fusilli.Base.{◌++◌, Text, codes}

abbrev pub unary_torch_schema : Text
unary_torch_schema = codes "\n    {0}\n    {1} = {6} {2} : {3} -> {4}\n    {5}\n"

abbrev pub binary_torch_schema : Text
binary_torch_schema = codes "\n    {0}\n    {1}\n    {2} = {7} {3} : {4} -> {5}\n    {6}\n"

abbrev pub ternary_torch_schema : Text
ternary_torch_schema =
    codes "\n    {0}\n    {1}\n    {2}\n    {3} = {8} {4} : {5} -> {6}\n    {7}\n"

abbrev pub sub_add_schema : Text
sub_add_schema =
    codes "\n    {0}\n    {1}\n    %alpha_{8} = torch.constant.int 1\n"
    ++ codes "    {2} = {7} {3}, %alpha_{8} : {4}, !torch.int -> {5}\n    {6}\n"

abbrev pub add_square_schema : Text
add_square_schema =
    codes "\n    {0}\n    {1}\n"
    ++ codes "    %add_square_sq_{8} = torch.aten.mul.Tensor {3}, {3} : {4}, {4} -> {4}\n"
    ++ codes "    %alpha_{8} = torch.constant.int 1\n"
    ++ codes "    {5} = torch.aten.add.Tensor {2}, %add_square_sq_{8}, %alpha_{8} : {9}, "
    ++ codes "!torch.int -> {6}\n    {7}\n"

abbrev pub tanh_bwd_schema : Text
tanh_bwd_schema =
    codes "\n    {0}\n    {1}\n"
    ++ codes "    %tanh_bwd_y_{6} = torch.aten.tanh {2} : {3} -> {3}\n"
    ++ codes "    {4} = torch.aten.tanh_backward {7}, %tanh_bwd_y_{6} : {8}, {3} -> {5}\n"
    ++ codes "    {9}\n"

abbrev pub identity_schema : Text
identity_schema =
    codes "\n    {0}\n    %none_{7} = torch.constant.none\n"
    ++ codes "    {1} = {6} {2}, %none_{7} : {3}, !torch.none -> {4}\n    {5}\n"

abbrev pub elu_schema : Text
elu_schema =
    codes "\n    {0}\n    %elu_alpha_{7} = torch.constant.float {8}\n"
    ++ codes "    %elu_scale_{7} = torch.constant.float 1.000000e+00\n"
    ++ codes "    %elu_input_scale_{7} = torch.constant.float 1.000000e+00\n"
    ++ codes "    {1} = {6} {2}, %elu_alpha_{7}, %elu_scale_{7}, %elu_input_scale_{7} : "
    ++ codes "{3}, !torch.float, !torch.float, !torch.float -> {4}\n    {5}\n"

abbrev pub relu_bwd_schema : Text
relu_bwd_schema =
    codes "\n    {0}\n    {1}\n    %relu_bwd_threshold_{7} = torch.constant.int 0\n"
    ++ codes "    {2} = torch.aten.threshold_backward {3}, %relu_bwd_threshold_{7} : {4}, "
    ++ codes "!torch.int -> {5}\n    {6}\n"

abbrev pub gelu_schema : Text
gelu_schema =
    codes "\n    {0}\n    %gelu_approximate_{7} = torch.constant.str \"{8}\"\n"
    ++ codes "    {1} = {6} {2}, %gelu_approximate_{7} : {3}, !torch.str -> {4}\n"
    ++ codes "    {5}\n"

abbrev pub gelu_bwd_schema : Text
gelu_bwd_schema =
    codes "\n    {0}\n    {1}\n"
    ++ codes "    %gelu_approximate_{7} = torch.constant.str \"{8}\"\n"
    ++ codes "    {2} = torch.aten.gelu_backward {3}, %gelu_approximate_{7} : {4}, "
    ++ codes "!torch.str -> {5}\n    {6}\n"

abbrev pub swish_schema : Text
swish_schema =
    codes "\n    {0}\n    %swish_beta_{6} = torch.constant.float {7}\n"
    ++ codes "    %swish_scaled_{6} = torch.aten.mul.Scalar {2}, %swish_beta_{6} : {3}, "
    ++ codes "!torch.float -> {4}\n"
    ++ codes "    %swish_sig_{6} = torch.aten.sigmoid %swish_scaled_{6} : {4} -> {4}\n"
    ++ codes "    {1} = torch.aten.mul.Tensor {2}, %swish_sig_{6} : {3}, {4} -> {4}\n"
    ++ codes "    {5}\n"

abbrev pub swish_bwd_schema : Text
swish_bwd_schema =
    codes "\n    {0}\n    {1}\n"
    ++ codes "    %swish_bwd_beta_{7} = torch.constant.float {8}\n"
    ++ codes "    %swish_bwd_scaled_{7} = torch.aten.mul.Scalar {9}, %swish_bwd_beta_{7} "
    ++ codes ": {10}, !torch.float -> {10}\n"
    ++ codes "    %swish_bwd_sig_{7} = torch.aten.sigmoid %swish_bwd_scaled_{7} : {10} -> "
    ++ codes "{10}\n    %swish_bwd_one_{7} = torch.constant.float 1.000000e+00\n"
    ++ codes "    %swish_bwd_one_minus_sig_{7} = torch.aten.rsub.Scalar "
    ++ codes "%swish_bwd_sig_{7}, %swish_bwd_one_{7}, %swish_bwd_one_{7} : {10}, "
    ++ codes "!torch.float, !torch.float -> {10}\n"
    ++ codes "    %swish_bwd_sig_ds_{7} = torch.aten.mul.Tensor %swish_bwd_sig_{7}, "
    ++ codes "%swish_bwd_one_minus_sig_{7} : {10}, {10} -> {10}\n"
    ++ codes "    %swish_bwd_betax_sig_ds_{7} = torch.aten.mul.Tensor "
    ++ codes "%swish_bwd_scaled_{7}, %swish_bwd_sig_ds_{7} : {10}, {10} -> {10}\n"
    ++ codes "    %swish_bwd_alpha_{7} = torch.constant.int 1\n"
    ++ codes "    %swish_bwd_dinner_{7} = torch.aten.add.Tensor %swish_bwd_sig_{7}, "
    ++ codes "%swish_bwd_betax_sig_ds_{7}, %swish_bwd_alpha_{7} : {10}, {10}, !torch.int "
    ++ codes "-> {10}\n"
    ++ codes "    {2} = torch.aten.mul.Tensor {3}, %swish_bwd_dinner_{7} : {4}, {10} -> {5}\n"
    ++ codes "    {6}\n"

abbrev pub softplus_schema : Text
softplus_schema =
    codes "\n    {0}\n    %softplus_beta_{7} = torch.constant.float {8}\n"
    ++ codes "    %softplus_threshold_{7} = torch.constant.float {9}\n"
    ++ codes "    {1} = {6} {2}, %softplus_beta_{7}, %softplus_threshold_{7} : {3}, "
    ++ codes "!torch.float, !torch.float -> {4}\n    {5}\n"
