-- ===== src/Node/Matmul/Shape.antt =====
-- node/matmul_node.h: `getMatmulInferredOutputShape` and its assertions.
use fusilli.Base.{
  ℕ, ◌-◌, ◌≤◌, ◌<◌, ◌==◌, leb, ltb, ◌!=◌, ◌≡◌, sym, ◌∙◌, true, not, List, ℤ, pos, ◌==ℤ◌, arith,
  length, length-replicate, ok, error_if, assert, ◌>>=◌, at, put, at_ok, length-put, for_range-each,
  for_count_ok, >>=-eq-ok, error_if-eq-ok, invalid_attribute,
}
use fusilli.Tensor.Order.Inverse.{put_ok, at-put, at-put_other}
use fusilli.Node.Store.{Store, deref, require}
use fusilli.Tensor.Attr.{TensorAttr}
use fusilli.Node.Matmul.{
  MatmulAttr, divides_either_way, check_broadcastable, max_ℤ, get_matmul_inferred_output_shape,
  pre_validate_node,
}

-- The batch dimensions divide each other.
abbrev pub Compatible : List ℤ → List ℤ → ℕ → Type 0
Compatible a_dim b_dim count =
    (i : ℕ)
    → i < count
    → (a b : ℤ) → at a_dim i ≡ ok a
    → at b_dim i ≡ ok b
    → divides_either_way a b ≡ ok true

check_broadcastable-Compatible :
    (a_dim b_dim : List ℤ) (count : ℕ)
    → check_broadcastable a_dim b_dim count ≡ ok tt
    → Compatible a_dim b_dim count
unfolding check_broadcastable
check_broadcastable-Compatible a_dim b_dim count h i lt a b ea eb =
    let round = for_range-each _ 0 count h i (omega arith) (omega arith) in
    let reduced : (divides_either_way a b >>= λ c. error_if (not c) invalid_attribute) ≡ ok tt =
      rw (ea, eb) at round in
    ground arith

-- A shape of the same rank that ends in the rows of the first and the columns of the second.
abbrev pub IsProduct : List ℤ → List ℤ → List ℤ → Type 0
IsProduct a_dim b_dim c =
    (length c ≡ length a_dim)
    × (at c (length a_dim - 2) ≡ at a_dim (length a_dim - 2))
    × (at c (length a_dim - 1) ≡ at b_dim (length a_dim - 1))

-- One batch dimension: the assertion holds, and the places are there.
batch_round :
    (a_dim b_dim : List ℤ)
    → length a_dim ≡ length b_dim
    → Compatible a_dim b_dim (length a_dim - 2)
    → (i : ℕ) (c : List ℤ) → i < length a_dim - 2
    → length c ≡ length a_dim
    → (c' : List ℤ) × ((at a_dim i >>= λ a. at b_dim i >>= λ b.
          divides_either_way a b >>= λ compatible. assert compatible >>= λ _. put c i (max_ℤ a b))
        ≡ ok c')
      × (length c' ≡ length a_dim)
batch_round a_dim b_dim same compatible i c lt len =
    let (a, ea) = at_ok a_dim i (omega arith) in
    let (b, eb) = at_ok b_dim i (omega arith) in
    let (c', e) = put_ok c i (max_ℤ a b) (omega arith) in
    let divides = compatible i lt a b ea eb in
    (c', rw (ea, eb, divides) e, omega (arith, length-put c i (max_ℤ a b) e))

-- For operands of the same rank, two at least, whose batch dimensions divide each other.
pub output_shape_ok :
    (a_dim b_dim : List ℤ)
    → 2 ≤ length a_dim
    → length a_dim ≡ length b_dim
    → Compatible a_dim b_dim (length a_dim - 2)
    → (c : List ℤ) × (get_matmul_inferred_output_shape a_dim b_dim ≡ ok c) × IsProduct a_dim b_dim c
unfolding get_matmul_inferred_output_shape
output_shape_ok a_dim b_dim two same compatible =
    let rank : (length a_dim == length b_dim) ≡ true = ground arith in
    let least : leb 2 (length a_dim) ≡ true = ground arith in
    let start = length-replicate (length a_dim) (pos 0) in
    let (c, batch, len) =
      for_count_ok (λ _ (c : List ℤ). length c ≡ length a_dim) _ (length a_dim - 2) _
        (batch_round a_dim b_dim same compatible) start in
    let (m, em) = at_ok a_dim (length a_dim - 2) (omega arith) in
    let (c', rows) = put_ok c (length a_dim - 2) m (omega arith) in
    let len' = length-put c (length a_dim - 2) m rows in
    let (n, en) = at_ok b_dim (length a_dim - 1) (omega arith) in
    let (c'', columns) = put_ok c' (length a_dim - 1) n (omega arith) in
    let len'' = length-put c' (length a_dim - 1) n columns in
    (
      c'',
      rw (rank, least, batch, em, rows, en) columns,
      (
        omega arith,
        at-put_other c' (length a_dim - 1) (length a_dim - 2) n columns (omega arith)
            ∙ at-put c (length a_dim - 2) m rows
            ∙ sym em,
        at-put c' (length a_dim - 1) n columns ∙ sym en,
      ),
    )

-- For a node that passes the first checks, the shape of the product is computed: no assertion fails,
-- nothing is out of range, and no remainder is by zero. The shape has the rank of the operands, and
-- ends in the rows of A and the columns of B.
pub pre_validate_node-output_shape :
    (attr : MatmulAttr) (st : Store) (a b : TensorAttr)
    → deref st attr.a ≡ ok a
    → deref st attr.b ≡ ok b
    → pre_validate_node attr st ≡ ok tt
    → (c : List ℤ) × (get_matmul_inferred_output_shape a.dim b.dim ≡ ok c) × IsProduct a.dim b.dim c
unfolding pre_validate_node
pre_validate_node-output_shape attr st a b ea eb h =
    let (_, _, h₁) = >>=-eq-ok (require attr.a) _ h in
    let (_, _, h₂) = >>=-eq-ok (require attr.b) _ h₁ in
    let (_, _, h₃) = >>=-eq-ok (require attr.c) _ h₂ in
    let checks = rw (ea, eb) at h₃ in
    let (_, e₁, h₄) = >>=-eq-ok (error_if (ltb (length a.dim) 2) invalid_attribute) _ checks in
    let (_, e₂, h₅) = >>=-eq-ok (error_if (ltb (length b.dim) 2) invalid_attribute) _ h₄ in
    let (_, e₃, h₆) = >>=-eq-ok (error_if (length a.dim != length b.dim) invalid_attribute) _ h₅ in
    let (a_k, _, h₇) = >>=-eq-ok (at a.dim (length a.dim - 1)) _ h₆ in
    let (b_k, _, h₈) = >>=-eq-ok (at b.dim (length b.dim - 2)) _ h₇ in
    let (_, _, h₉) = >>=-eq-ok (error_if (not (a_k ==ℤ b_k)) invalid_attribute) _ h₈ in
    let (_, e₄, _) = >>=-eq-ok (check_broadcastable a.dim b.dim (length a.dim - 2)) _ h₉ in
    let two = error_if-eq-ok _ _ e₁ in
    let same = error_if-eq-ok _ _ e₃ in
    output_shape_ok a.dim b.dim (ground arith) (ground arith)
      (check_broadcastable-Compatible a.dim b.dim (length a.dim - 2) e₄)
