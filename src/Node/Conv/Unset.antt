-- ===== src/Node/Conv/Unset.antt =====
-- node/conv_node.h: gradients whose output has no dimensions.
use fusilli.Base.{◌≡◌, arith, [], ok, fault, at}
use fusilli.Tensor.Attr.{TensorAttr}
use fusilli.Node.Store.{Store, deref}
use fusilli.Node.Conv.WGrad.{ConvWGradAttr}
use fusilli.Node.Conv.WGrad
use fusilli.Node.Conv.DGrad.{ConvDGradAttr}
use fusilli.Node.Conv.DGrad

no_channels : (t : TensorAttr) → t.dim ≡ [] → at t.dim 1 ≡ fault
unfolding at
no_channels t e = rw e

wgrad_unset :
    (attr : ConvWGradAttr) (st st' : Store) (dw : TensorAttr)
    → WGrad.pre_validate_node attr st ≡ ok tt
    → deref st' attr.dy ≡ deref st attr.dy
    → deref st' attr.x ≡ deref st attr.x
    → deref st' attr.dw ≡ ok dw
    → dw.dim ≡ []
    → WGrad.pre_validate_node attr st' ≡ fault
unfolding WGrad.pre_validate_node
wgrad_unset attr st st' dw h dy x e unset =
    let none_ = no_channels dw unset in rw (dy, x, e) (ground arith)

dgrad_unset :
    (attr : ConvDGradAttr) (st st' : Store) (dx : TensorAttr)
    → DGrad.pre_validate_node attr st ≡ ok tt
    → deref st' attr.dy ≡ deref st attr.dy
    → deref st' attr.w ≡ deref st attr.w
    → deref st' attr.dx ≡ ok dx
    → dx.dim ≡ []
    → DGrad.pre_validate_node attr st' ≡ fault
unfolding DGrad.pre_validate_node
dgrad_unset attr st st' dx h dy w e unset =
    let none_ = no_channels dx unset in rw (dy, w, e) (ground arith)

-- Take two gradients, one by the weights and one by the input, that pass the first checks. If the
-- tensors that they read stay as they are and the dimensions of their outputs are not set, no check
-- turns them down: both read a dimension of the output out of range.
pub gradients_pre_validate-unset :
    (w : ConvWGradAttr) (x : ConvDGradAttr) (st st' : Store) (dw dx : TensorAttr)
    → WGrad.pre_validate_node w st ≡ ok tt
    → DGrad.pre_validate_node x st ≡ ok tt
    → deref st' w.dy ≡ deref st w.dy
    → deref st' w.x ≡ deref st w.x
    → deref st' x.dy ≡ deref st x.dy
    → deref st' x.w ≡ deref st x.w
    → deref st' w.dw ≡ ok dw
    → deref st' x.dx ≡ ok dx
    → dw.dim ≡ []
    → dx.dim ≡ []
    → (WGrad.pre_validate_node w st' ≡ fault) × (DGrad.pre_validate_node x st' ≡ fault)
gradients_pre_validate-unset w x st st' dw dx hw hx dy x_ dy' w_ ew ex uw ux =
    (wgrad_unset w st st' dw hw dy x_ ew uw, dgrad_unset x st st' dx hx dy' w_ ex ux)
