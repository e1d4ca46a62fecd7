-- ===== src/Examples/Operations.antt =====
-- node/: theorems at a convolution and at attention.
use fusilli.Base.{
  ℕ, ◌≤◌, ◌<◌, ◌≡◌, refl, sym, true, false, some, none, List, [], ◌∷◌, ℤ, pos, ok, fault, is_ok,
  length, at, put, for_range, arith, ok-injective, int64, ◌*ℤ◌, ◌+ℤ◌, ◌-ℤ◌, quot, rem, div64, mod64,
  ints_eq,
}
use mathlib.Core.Path.{subst}
use fusilli.Graph.Context.{Context}
use fusilli.Tensor.Attr.{TensorAttr, default_tensor, fill_from_context}
use fusilli.Tensor.Types.{DataType, is_set}
use fusilli.Tensor.Layout.{is_neither_layout, is_contiguous}
use fusilli.Tensor.Order.{get_contiguous_stride_order, fill_back}
use fusilli.Tensor.Stride.{generate_stride_from_dim, place_dim, write_stride}
use fusilli.Node.Store.{Store, deref, modify, fill_tensors, fill_compute, infer_dim, check_layout}
use fusilli.Node.Conv.{
  conv_extent, get_conv_inferred_output_shape, check_spatial_sizes, check_groups,
}
use fusilli.Node.Conv.FProp.{ConvFPropAttr}
use fusilli.Node.Conv.FProp
use fusilli.Node.Conv.WGrad.{ConvWGradAttr}
use fusilli.Node.Conv.WGrad
use fusilli.Node.Conv.DGrad.{ConvDGradAttr}
use fusilli.Node.Conv.DGrad
use fusilli.Node.Conv.Shape.{AtDim, Filled, fprop_pre_validate-output_shape}
use fusilli.Node.Conv.Unset.{gradients_pre_validate-unset}
use fusilli.Node.Sdpa.{SdpaAttr, output_dim, infer_properties_node, post_validate_node}
use fusilli.Node.Sdpa.Inferred.{infer-post_validate}

-- A line of five values with one channel, and a filter of three.
abbrev line : TensorAttr
line = record default_tensor {
  name = "x";
  dim = pos 1 ∷ pos 1 ∷ pos 5 ∷ [];
  stride = pos 5 ∷ pos 5 ∷ pos 1 ∷ [];
}

abbrev filter : TensorAttr
filter = record default_tensor {
  name = "w";
  dim = pos 1 ∷ pos 1 ∷ pos 3 ∷ [];
  stride = pos 3 ∷ pos 3 ∷ pos 1 ∷ [];
}

abbrev tensors : Store
tensors = line ∷ filter ∷ default_tensor ∷ []

abbrev convolution : ConvFPropAttr
convolution = record {
  name = "conv";
  compute_data_type = DataType.float;
  x = some 0;
  w = some 1;
  y = some 2;
  stride = pos 1 ∷ [];
  padding = pos 1 ∷ [];
  dilation = pos 1 ∷ [];
}

convolution-accepted : FProp.pre_validate_node convolution tensors ≡ ok tt
unfolding FProp.pre_validate_node deref at check_spatial_sizes check_groups check_layout
    is_neither_layout is_contiguous get_contiguous_stride_order generate_stride_from_dim for_range
    fill_back put place_dim write_stride int64 ◌*ℤ◌ ints_eq mod64 div64 quot rem
convolution-accepted = refl

one_extent :
    (x w d p s : ℤ)
    → x ≡ pos 5
    → w ≡ pos 3
    → d ≡ pos 1
    → p ≡ pos 1
    → s ≡ pos 1
    → is_ok (conv_extent x w d p s) ≡ true
unfolding conv_extent int64 div64 quot ◌*ℤ◌ ◌+ℤ◌ ◌-ℤ◌
one_extent x w d p s ex ew ed ep es = rw (ex, ew, ed, ep, es)

extents :
    (i : ℕ)
    → 2 ≤ i
    → i < length line.dim
    → AtDim line.dim filter.dim convolution.dilation convolution.padding convolution.stride i
        (λ x w d p s. is_ok (conv_extent x w d p s) ≡ true)
unfolding at
extents i low high =
    let i2 : 2 ≡ i = omega arith in
    subst
      (λ i.
        AtDim line.dim filter.dim convolution.dilation convolution.padding convolution.stride i
          (λ x w d p s. is_ok (conv_extent x w d p s) ≡ true))
      i2
      (λ x w d p s ex ew ed ep es.
        one_extent x w d p s (sym (ok-injective ex)) (sym (ok-injective ew)) (sym (ok-injective ed))
          (sym (ok-injective ep)) (sym (ok-injective es)))

fprop_example :
    (y : List ℤ) × (get_conv_inferred_output_shape line.dim filter.dim convolution.dilation
        convolution.padding convolution.stride
      ≡ ok y)
    × Filled line.dim filter.dim convolution.dilation convolution.padding convolution.stride 3 y
unfolding deref at
fprop_example =
    fprop_pre_validate-output_shape convolution tensors line filter refl refl convolution-accepted
      extents

abbrev by_weights : ConvWGradAttr
by_weights = record {
  name = "wgrad";
  compute_data_type = DataType.float;
  dy = some 0;
  x = some 0;
  dw = some 2;
  stride = pos 1 ∷ [];
  padding = pos 1 ∷ [];
  dilation = pos 1 ∷ [];
}

abbrev by_input : ConvDGradAttr
by_input = record {
  name = "dgrad";
  compute_data_type = DataType.float;
  dy = some 0;
  w = some 1;
  dx = some 2;
  stride = pos 1 ∷ [];
  padding = pos 1 ∷ [];
  dilation = pos 1 ∷ [];
}

-- The same tensors, with dimensions for the output.
abbrev set_tensors : Store
set_tensors = line ∷ filter ∷ filter ∷ []

weights-accepted : WGrad.pre_validate_node by_weights set_tensors ≡ ok tt
unfolding WGrad.pre_validate_node deref at check_spatial_sizes check_groups check_layout
    is_neither_layout is_contiguous get_contiguous_stride_order generate_stride_from_dim for_range
    fill_back put place_dim write_stride int64 ◌*ℤ◌ ints_eq mod64 div64 quot rem
weights-accepted = refl

input-accepted : DGrad.pre_validate_node by_input set_tensors ≡ ok tt
unfolding DGrad.pre_validate_node deref at check_spatial_sizes check_groups check_layout
    is_neither_layout is_contiguous get_contiguous_stride_order generate_stride_from_dim for_range
    fill_back put place_dim write_stride int64 ◌*ℤ◌ ints_eq mod64 div64 quot rem
input-accepted = refl

gradients_example :
    (WGrad.pre_validate_node by_weights tensors ≡ fault)
    × (DGrad.pre_validate_node by_input tensors ≡ fault)
unfolding deref at
gradients_example =
    gradients_pre_validate-unset by_weights by_input set_tensors tensors default_tensor
      default_tensor weights-accepted input-accepted refl refl refl refl refl refl refl refl

abbrev context : Context
context = record {
  compute_data_type = DataType.float;
  intermediate_data_type = DataType.float;
  io_data_type = DataType.float;
  name = "g";
}

abbrev heads : TensorAttr
heads = record default_tensor {
  name = "q";
  data_type = DataType.float;
  dim = pos 1 ∷ pos 2 ∷ pos 3 ∷ pos 4 ∷ [];
  stride = pos 24 ∷ pos 12 ∷ pos 4 ∷ pos 1 ∷ [];
}

abbrev output : TensorAttr
output = record default_tensor { name = "o"; data_type = DataType.float }

abbrev attention : SdpaAttr
attention = record {
  name = "sdpa";
  compute_data_type = DataType.float;
  q = some 0;
  k = some 0;
  v = some 0;
  mask = none;
  o = some 1;
  dropout = 0;
  is_causal = false;
  scale = none;
  enable_gqa = false;
}

abbrev inferred : Store
inferred = heads ∷ record output { dim = heads.dim; stride = heads.stride } ∷ []

attention-inferred :
    infer_properties_node context attention (heads ∷ output ∷ []) ≡ ok (attention, inferred)
unfolding infer_properties_node fill_compute is_set fill_tensors fill_from_context deref modify at
    put output_dim infer_dim for_range get_contiguous_stride_order fill_back
    generate_stride_from_dim place_dim write_stride int64 ◌*ℤ◌
attention-inferred = refl

attention_example : post_validate_node attention inferred ≡ ok tt
unfolding at
attention_example =
    infer-post_validate context attention attention (heads ∷ output ∷ []) inferred 1 output refl
      refl refl attention-inferred
