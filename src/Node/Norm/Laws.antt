-- ===== src/Node/Norm/Laws.antt =====
-- node/layernorm_node.h, node/rmsnorm_node.h, node/batchnorm_node.h: what is turned down.
use fusilli.Base.{ℕ, ltb, ◌≡◌, arith, true, false, some, ok, fault, length, at}
use fusilli.Tensor.Attr.{TensorAttr}
use fusilli.Tensor.Layout.{is_contiguous, is_neither_layout, is_channels_last}
use fusilli.Tensor.Order.{get_channels_last_stride_order}
use fusilli.Node.Store.{Store, deref, check_layout}
use fusilli.Node.Norm.{NormFwdPhase, is_not_set, is_training}
use fusilli.Node.Norm.Layer.{LayernormAttr}
use fusilli.Node.Norm.Layer
use fusilli.Node.Norm.Rms.{RmsnormAttr}
use fusilli.Node.Norm.Rms
use fusilli.Node.Norm.Batch.{BatchnormAttr}
use fusilli.Node.Norm.Batch

-- Whatever else the node and the store hold, a node in the training phase never passes the last
-- check of RMS normalization.
pub rms_post_validate-training :
    (attr : RmsnormAttr) (st : Store)
    → is_training attr.forward_phase ≡ true
    → ¬ (Rms.post_validate_node attr st ≡ ok tt)
unfolding Rms.post_validate_node
rms_post_validate-training attr st train h = ground arith

-- The channels-last order has no answer for two dimensions.
check_layout-two :
    (t : TensorAttr) → length t.dim ≡ 2 → is_contiguous t ≡ ok false → check_layout t ≡ fault
unfolding check_layout is_neither_layout is_channels_last get_channels_last_stride_order
check_layout-two t two strided = rw (strided, two)

-- A node in a phase that is set, with X and Y, whose X has two dimensions and is not contiguous, is
-- not turned down by the first checks of layer, RMS or batch normalization: an assertion fails there.
pub norm_pre_validate-two_dims :
    (layer : LayernormAttr) (rms : RmsnormAttr) (batch : BatchnormAttr) (phase : NormFwdPhase)
    (st : Store) (x : TensorAttr) (i j : ℕ)
    → is_not_set phase ≡ false
    → at st i ≡ ok x
    → length x.dim ≡ 2
    → is_contiguous x ≡ ok false
    → (Layer.pre_validate_node (record layer { forward_phase = phase; x = some i; y = some j }) st
        ≡ fault)
      × (Rms.pre_validate_node (record rms { forward_phase = phase; x = some i; y = some j }) st
          ≡ fault)
      × (Batch.pre_validate_node (record batch { forward_phase = phase; x = some i; y = some j }) st
          ≡ fault)
unfolding Layer.pre_validate_node Rms.pre_validate_node Batch.pre_validate_node deref
norm_pre_validate-two_dims layer rms batch phase st x i j set e two strided =
    let failed = check_layout-two x two strided in
    let enough : ltb (length x.dim) 2 ≡ false = ground arith in
    (rw (set, e, enough, failed), rw (set, e, enough, failed), rw (set, e, enough, failed))
