-- ===== src/Node/Conv/Shape.antt =====
-- node/conv_node.h: `getConvInferredOutputShape`.
use fusilli.Base.{
  ℕ, suc, ◌+◌, ◌-◌, ◌≤◌, ◌<◌, ◌==◌, ◌≡◌, refl, sym, ◌∙◌, inl, inr, Bool-cases, arith, true, List, ℤ,
  pos, length, replicate, length-replicate, ok, ◌>>=◌, at, put, at_ok, length-put, for_range_ok,
  is_ok, is_ok-value,
}
use mathlib.Core.Path.{subst}
use fusilli.Tensor.Order.Inverse.{put_ok, at-put, at-put_other}
use fusilli.Tensor.Attr.{TensorAttr}
use fusilli.Node.Store.{Store, deref}
use fusilli.Node.Conv.FProp.{ConvFPropAttr}
use fusilli.Node.Conv.FProp
use fusilli.Node.Conv.{check_spatial_sizes, conv_extent, get_conv_inferred_output_shape}

module _ (x_dim w_dim dilation padding stride : List ℤ) where
  -- What holds for the numbers of one spatial dimension, the `i`-th of the tensor.
  abbrev pub AtDim {ℓ} : ℕ → (ℤ → ℤ → ℤ → ℤ → ℤ → Type ℓ) → Type ℓ
  AtDim i P =
      (x w d p s : ℤ)
      → at x_dim i ≡ ok x
      → at w_dim i ≡ ok w
      → at dilation (i - 2) ≡ ok d
      → at padding (i - 2) ≡ ok p
      → at stride (i - 2) ≡ ok s
      → P x w d p s

  -- The attributes have one entry for each spatial dimension, as the first checks demand.
  abbrev pub HasRank : ℕ → Type 0
  HasRank rank =
      (2 ≤ rank)
      × (length x_dim ≡ rank)
      × (length w_dim ≡ rank)
      × (length dilation ≡ rank - 2)
      × (length padding ≡ rank - 2)
      × (length stride ≡ rank - 2)

  -- Before round `i`: the batch and the channels are there, and the spatial dimensions before `i`.
  abbrev pub Filled : ℕ → List ℤ → Type 0
  Filled i y =
      (length y ≡ length x_dim)
      × (at y 0 ≡ at x_dim 0)
      × (at y 1 ≡ at w_dim 0)
      × ((j : ℕ) → 2 ≤ j → j < i → AtDim j (λ x w d p s. at y j ≡ conv_extent x w d p s))

  module _ (rank : ℕ) (sized : HasRank rank)
      (computes : (i : ℕ)
        → 2 ≤ i
        → i < rank
        → AtDim i (λ x w d p s. is_ok (conv_extent x w d p s) ≡ true)) where
    filled_dim :
        (i : ℕ) (y y' : List ℤ) (x w d p s extent : ℤ)
        → at x_dim i ≡ ok x
        → at w_dim i ≡ ok w
        → at dilation (i - 2) ≡ ok d
        → at padding (i - 2) ≡ ok p
        → at stride (i - 2) ≡ ok s
        → conv_extent x w d p s ≡ ok extent
        → put y i extent ≡ ok y'
        → ((j : ℕ) → 2 ≤ j → j < i → AtDim j (λ x w d p s. at y j ≡ conv_extent x w d p s))
        → (j : ℕ) → 2 ≤ j
        → j < suc i
        → AtDim j (λ x w d p s. at y' j ≡ conv_extent x w d p s)
    filled_dim i y y' x w d p s extent ex ew ed ep es ee ey earlier j low high x' w' d' p' s' fx fw
          fd fp fs =
        elim (Bool-cases (j == i)) [
          | inl same ↦ let ji : j ≡ i = ground arith in let here = at-put y i extent ey in cc
          | inr before ↦
              at-put_other y i j extent ey (ground arith)
              ∙ earlier j low (ground arith) x' w' d' p' s' fx fw fd fp fs
        ]

    fill_round :
        (i : ℕ) (y : List ℤ)
        → 2 ≤ i
        → i < rank
        → Filled i y
        → (y' : List ℤ) × ((at x_dim i >>= λ x. at w_dim i >>= λ w. at dilation (i - 2) >>= λ d.
              at padding (i - 2) >>= λ p.
              at stride (i - 2) >>= λ s. conv_extent x w d p s >>= λ extent. put y i extent)
            ≡ ok y')
          × Filled (suc i) y'
    fill_round i y low high (len, batch, channels, earlier) =
        let (_, lx, lw, ld, lp, ls) = sized in
        let (x, ex) = at_ok x_dim i (omega arith) in
        let (w, ew) = at_ok w_dim i (omega arith) in
        let (d, ed) = at_ok dilation (i - 2) (omega arith) in
        let (p, ep) = at_ok padding (i - 2) (omega arith) in
        let (s, es) = at_ok stride (i - 2) (omega arith) in
        let (extent, ee) =
          is_ok-value (conv_extent x w d p s) (computes i low high x w d p s ex ew ed ep es) in
        let (y', ey) = put_ok y i extent (omega arith) in
        (
          y',
          rw (ex, ew, ed, ep, es, ee) ey,
          (
            length-put y i extent ey ∙ len,
            at-put_other y i 0 extent ey (omega arith) ∙ batch,
            at-put_other y i 1 extent ey (omega arith) ∙ channels,
            filled_dim i y y' x w d p s extent ex ew ed ep es ee ey earlier,
          ),
        )

    pub get_conv_inferred_output_shape_lem :
        (y : List ℤ) × (get_conv_inferred_output_shape x_dim w_dim dilation padding stride ≡ ok y)
        × Filled rank y
    unfolding get_conv_inferred_output_shape
    get_conv_inferred_output_shape_lem =
        let (two, lx, lw, _, _, _) = sized in
        let (n, en) = at_ok x_dim 0 (omega arith) in
        let blank = replicate (length x_dim) (pos 0) in
        let len = length-replicate (length x_dim) (pos 0) in
        let (y₀, e₀) = put_ok blank 0 n (omega arith) in
        let len₀ = length-put blank 0 n e₀ in
        let (k, ek) = at_ok w_dim 0 (omega arith) in
        let (y₁, e₁) = put_ok y₀ 1 k (omega arith) in
        let start : Filled 2 y₁ = (
          length-put y₀ 1 k e₁ ∙ len₀ ∙ len,
          at-put_other y₀ 1 0 k e₁ (omega arith) ∙ at-put blank 0 n e₀ ∙ sym en,
          at-put y₀ 1 k e₁ ∙ sym ek,
          λ j low high. absurd (omega arith),
        ) in
        let (y, e, filled) =
          for_range_ok (λ i y. (2 ≤ i) × Filled i y) _ 2 (length x_dim - 2) y₁
            (λ i y high (low, f).
              let (y', e', f') = fill_round i y low (omega arith) f in (y', e', (omega arith, f')))
            (omega arith, start) in
        let all : 2 + (length x_dim - 2) ≡ rank = omega arith in
        (y, rw (en, e₀, ek, e₁) e, subst (λ i. Filled i y) all filled.1)

sizes-HasRank :
    (attr : ConvFPropAttr) (st : Store) (x w : TensorAttr)
    → deref st attr.x ≡ ok x
    → deref st attr.w ≡ ok w
    → FProp.pre_validate_node attr st ≡ ok tt
    → HasRank x.dim w.dim attr.dilation attr.padding attr.stride (length x.dim)
unfolding FProp.pre_validate_node check_spatial_sizes
sizes-HasRank attr st x w ex ew h =
    (ground arith, refl, ground arith, ground arith, ground arith, ground arith)

-- For a forward convolution that passes the first checks, and for whose numbers the extent of every
-- spatial dimension is computed (no division by zero, no overflow), the output shape is computed
-- without a fault. It has the rank of X, the batch of X, the channels of W, and at each spatial
-- dimension the extent for the numbers of that dimension.
pub fprop_pre_validate-output_shape :
    (attr : ConvFPropAttr) (st : Store) (x w : TensorAttr)
    → deref st attr.x ≡ ok x
    → deref st attr.w ≡ ok w
    → FProp.pre_validate_node attr st ≡ ok tt
    → ((i : ℕ)
        → 2 ≤ i
        → i < length x.dim
        → AtDim x.dim w.dim attr.dilation attr.padding attr.stride i
            (λ x w d p s. is_ok (conv_extent x w d p s) ≡ true))
    → (y : List ℤ) × (get_conv_inferred_output_shape x.dim w.dim attr.dilation attr.padding
          attr.stride
        ≡ ok y)
      × Filled x.dim w.dim attr.dilation attr.padding attr.stride (length x.dim) y
fprop_pre_validate-output_shape attr st x w ex ew h computes =
    get_conv_inferred_output_shape_lem x.dim w.dim attr.dilation attr.padding attr.stride
      (length x.dim) (sizes-HasRank attr st x w ex ew h) computes
