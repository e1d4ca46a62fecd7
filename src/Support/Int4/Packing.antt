-- ===== src/Support/Int4/Packing.antt =====
-- support/int_types.h: packed elements are unpacked again.
use fusilli.Base.{
  ℕ, zero, suc, ◌+◌, ◌*◌, ◌/◌, ◌%◌, ◌^◌, ◌<◌, ◌≤◌, ◌==◌, ltb, ◌≡◌, refl, sym, ap, ◌∙◌, inl, inr,
  Bool-cases, if◌then◌else◌, List, [], ◌∷◌, map, length, length-map, replicate, length-replicate,
  arith, ok, ◌>>=◌, at, put, at_ok, length-put, for_count_ok,
}
use fusilli.Tensor.Order.Inverse.{put_ok, at-put, at-put_other}
use fusilli.Support.Int4.{bit_and, bit_or, Int4, to_bits, to_int, from_bits, pack, unpack}
use fusilli.Support.Int4.Bits.{low_nibble, bit_or-byte, bit_or-nibbles, to_bits_lem, to_int_lem}

-- The bits of the element at an index, and 0 beyond the last.
abbrev nibble : List Int4 → ℕ → ℕ
nibble [] i = 0
nibble (e ∷ es) zero = e.data_ % 16
nibble (e ∷ es) (suc i) = nibble es i

at-nibble : (es : List Int4) (i : ℕ) (e : Int4) → at es i ≡ ok e → nibble es i ≡ e.data_ % 16
unfolding at
at-nibble [] i e h = absurd (ground arith)
at-nibble (x ∷ xs) zero e h = ground arith
at-nibble (x ∷ xs) (suc i) e h = at-nibble xs i e h

nibble_small : (es : List Int4) (i : ℕ) → nibble es i < 16
nibble_small [] i = omega arith
nibble_small (e ∷ es) zero = omega arith
nibble_small (e ∷ es) (suc i) = nibble_small es i

-- Two vectors with the same entries.
at_ext {ℓ} :
    {A : Type ℓ} (xs ys : List A)
    → length xs ≡ length ys
    → ((i : ℕ) → i < length xs → at xs i ≡ at ys i)
    → xs ≡ ys
unfolding at
at_ext [] [] len same = refl
at_ext [] (y ∷ ys) len same = absurd (omega arith)
at_ext (x ∷ xs) [] len same = absurd (omega arith)
at_ext (x ∷ xs) (y ∷ ys) len same =
    let head : x ≡ y = let h = same 0 (omega arith) in cc in
    let tail = at_ext xs ys (omega arith) λ i lt. same (suc i) (omega arith) in cc

at-replicate {ℓ} : {A : Type ℓ} (n i : ℕ) (a : A) → i < n → at (replicate n a) i ≡ ok a
unfolding at
at-replicate zero i a lt = absurd (omega arith)
at-replicate (suc n) zero a lt = refl
at-replicate (suc n) (suc i) a lt = at-replicate n i a (omega arith)

at-map {ℓ κ} :
    {A : Type ℓ} {B : Type κ} (f : A → B) (xs : List A) (i : ℕ) (a : A)
    → at xs i ≡ ok a
    → at (map f xs) i ≡ ok (f a)
unfolding at
at-map f [] i a h = cc
at-map f (x ∷ xs) zero a h = cc
at-map f (x ∷ xs) (suc i) a h = at-map f xs i a h

module _ (es : List Int4) where
  -- The nibble at an index once the elements before `i` are packed.
  abbrev filled : ℕ → ℕ → ℕ
  filled i j = if ltb j i then nibble es j else 0

  abbrev Packed : ℕ → List ℕ → Type 0
  Packed i bytes =
      (length bytes ≡ (length es + 1) / 2)
      × ((k : ℕ)
          → k < (length es + 1) / 2
          → at bytes k ≡ ok (filled i (2 * k) + 16 * filled i (2 * k + 1)))

  filled_before : (i j : ℕ) → j < i → filled i j ≡ nibble es j
  filled_before i j lt = ground arith

  filled_after : (i j : ℕ) → i ≤ j → filled i j ≡ 0
  filled_after i j le = ground arith

  packed_byte :
      (i : ℕ) (e : Int4)
      → at es i ≡ ok e
      → bit_or 8
          (filled i (2 * (i / 2)) + 16 * filled i (2 * (i / 2) + 1))
          (to_bits e * 2 ^ (i % 2 * 4) % 2 ^ 8)
        ≡ filled (suc i) (2 * (i / 2)) + 16 * filled (suc i) (2 * (i / 2) + 1)
  packed_byte i e h =
      let k = i / 2 in
      let bits = at-nibble es i e h in
      let small = nibble_small es i in
      elim (Bool-cases (i % 2 == 0)) [
        | inl even ↦
            let slot : i % 2 ≡ 0 = ground arith in
            let same : 2 * (i / 2) ≡ i = omega arith in
            let shifted : to_bits e * 2 ^ (i % 2 * 4) % 2 ^ 8 ≡ nibble es i =
              rw (slot, to_bits_lem e) (omega arith) in
            rw
              (
                same,
                shifted,
                filled_after i i (omega arith),
                filled_after i (i + 1) (omega arith),
                filled_before (suc i) i (omega arith),
                filled_after (suc i) (i + 1) (omega arith),
              )
              (bit_or-byte (nibble es i) (omega arith) ∙ omega arith)
        | inr odd ↦
            let slot : i % 2 ≡ 1 = ground arith in
            let same : 2 * (i / 2) + 1 ≡ i = omega arith in
            let shifted : to_bits e * 2 ^ (i % 2 * 4) % 2 ^ 8 ≡ 16 * nibble es i =
              rw (slot, to_bits_lem e) (omega arith) in
            rw
              (
                same,
                shifted,
                filled_after i i (omega arith),
                filled_before i (2 * k) (omega arith),
                filled_before (suc i) i (omega arith),
                filled_before (suc i) (2 * k) (omega arith),
              )
              (ap (λ a. bit_or 8 a (16 * nibble es i)) (omega arith)
                ∙ bit_or-nibbles (nibble es (2 * k)) (nibble es i) (nibble_small es (2 * k)) small)
      ]

  pack_round :
      (i : ℕ) (bytes : List ℕ)
      → i < length es
      → Packed i bytes
      → (bytes' : List ℕ) × ((at es i >>= λ e. at bytes (i / 2) >>= λ b.
            put bytes (i / 2) (bit_or 8 b (to_bits e * 2 ^ (i % 2 * 4) % 2 ^ 8)))
          ≡ ok bytes')
        × Packed (suc i) bytes'
  pack_round i bytes lt (len, each) =
      let (e, ee) = at_ok es i lt in
      let eb = each (i / 2) (omega arith) in
      let byte = packed_byte i e ee in
      let new = filled (suc i) (2 * (i / 2)) + 16 * filled (suc i) (2 * (i / 2) + 1) in
      let (bytes', ep) = put_ok bytes (i / 2) new (omega arith) in
      (
        bytes',
        rw (ee, eb, byte) ep,
        (
          length-put bytes (i / 2) new ep ∙ len,
          λ k high. elim (Bool-cases (k == i / 2)) [
            | inl same ↦ let e : k ≡ i / 2 = ground arith in rw e (at-put bytes (i / 2) new ep)
            | inr other ↦
                let near : filled (suc i) (2 * k) ≡ filled i (2 * k) = ground arith in
                let far : filled (suc i) (2 * k + 1) ≡ filled i (2 * k + 1) = ground arith in
                rw (near, far) (at-put_other bytes (i / 2) k new ep (ground arith) ∙ each k high)
          ],
        ),
      )

  pack_lem : (bytes : List ℕ) × (pack es ≡ ok bytes) × Packed (length es) bytes
  unfolding pack
  pack_lem =
      let size = (length es + 1) / 2 in
      for_count_ok Packed _ (length es) (replicate size 0) pack_round
        (length-replicate size 0, λ k high. at-replicate size k 0 high ∙ ap ok (ground arith))

  abbrev Unpacked : ℕ → List Int4 → Type 0
  Unpacked i elements =
      (length elements ≡ length es)
      × ((j : ℕ) → j < i → at elements j ≡ ok (from_bits (nibble es j)))

  unpacked_nibble :
      (i : ℕ)
      → i < length es
      → (filled (length es) (2 * (i / 2)) + 16 * filled (length es) (2 * (i / 2) + 1))
          / 2 ^ (i % 2 * 4)
          % 2 ^ 8
          % 16
        ≡ nibble es i
  unpacked_nibble i lt =
      let k = i / 2 in
      let here = filled_before (length es) i lt in
      let small = nibble_small es i in
      elim (Bool-cases (i % 2 == 0)) [
        | inl even ↦
            let slot : i % 2 ≡ 0 = ground arith in
            let same : 2 * (i / 2) ≡ i = omega arith in rw (slot, same, here) (omega arith)
        | inr odd ↦
            let slot : i % 2 ≡ 1 = ground arith in
            let same : 2 * (i / 2) + 1 ≡ i = omega arith in
            let low = nibble_small es (2 * k) in
            rw (slot, same, here, filled_before (length es) (2 * k) (omega arith)) (omega arith)
      ]

  from_low : (a b : ℕ) → a % 16 ≡ b → from_bits a ≡ from_bits b
  unfolding from_bits
  from_low a b h =
      let same : bit_and 8 a 15 ≡ bit_and 8 b 15 =
        low_nibble a ∙ omega arith ∙ sym (low_nibble b) in
      rw same refl

  unpack_round :
      (bytes : List ℕ)
      → Packed (length es) bytes
      → (i : ℕ) (elements : List Int4) → i < length es
      → Unpacked i elements
      → (elements' : List Int4) × ((at bytes (i / 2) >>= λ b.
            put elements i (from_bits (b / 2 ^ (i % 2 * 4) % 2 ^ 8)))
          ≡ ok elements')
        × Unpacked (suc i) elements'
  unpack_round bytes (_, packed) i elements lt (len, each) =
      let eb = packed (i / 2) (omega arith) in
      let new = from_bits (nibble es i) in
      let value = from_low _ (nibble es i) (unpacked_nibble i lt) in
      let (elements', ep) = put_ok elements i new (omega arith) in
      (
        elements',
        rw (eb, value) ep,
        (
          length-put elements i new ep ∙ len,
          λ j high. elim (Bool-cases (j == i)) [
            | inl same ↦ let e : j ≡ i = ground arith in rw e (at-put elements i new ep)
            | inr other ↦ at-put_other elements i j new ep (ground arith) ∙ each j (ground arith)
          ],
        ),
      )

  unpack_lem :
      (bytes : List ℕ)
      → Packed (length es) bytes
      → unpack bytes (length es) ≡ ok (map (λ e. from_bits (to_bits e)) es)
  unfolding unpack
  unpack_lem bytes packed =
      let blank : Int4 = record { data_ = 0 } in
      let (elements, e, (len, each)) =
        for_count_ok Unpacked _ (length es) (replicate (length es) blank)
          (unpack_round bytes packed)
          (length-replicate (length es) blank, λ j high. absurd (omega arith)) in
      let canonical = λ (e : Int4). from_bits (to_bits e) in
      let same : elements ≡ map canonical es =
        at_ext elements (map canonical es) (len ∙ sym (length-map es canonical)) λ i lt.
          let (x, ex) = at_ok es i (omega arith) in
          let bits : nibble es i ≡ to_bits x = at-nibble es i x ex ∙ sym (to_bits_lem x) in
          each i (omega arith)
          ∙ ap (λ b. ok (from_bits b)) bits
          ∙ sym (at-map canonical es i x ex) in
      e ∙ ap ok same

to_int-from_bits : (e : Int4) → to_int (from_bits (to_bits e)) ≡ to_int e
unfolding from_bits
to_int-from_bits e =
    rw (to_int_lem e, to_int_lem (from_bits (to_bits e)), low_nibble (to_bits e), to_bits_lem e)
      (ground arith)

to_bits-from_bits : (e : Int4) → to_bits (from_bits (to_bits e)) ≡ to_bits e
unfolding from_bits
to_bits-from_bits e =
    rw (to_bits_lem (from_bits (to_bits e)), low_nibble (to_bits e), to_bits_lem e) (omega arith)

map_same {ℓ} :
    {A : Type ℓ} (f : Int4 → A) (g : Int4 → Int4) (es : List Int4)
    → ((e : Int4) → f (g e) ≡ f e)
    → map f (map g es) ≡ map f es
map_same f g [] same = refl
map_same f g (e ∷ es) same = let head = same e in let tail = map_same f g es same in cc

-- Packing never fails. It takes half as many bytes as there are elements, rounded up, and unpacking
-- them gives elements with the same bits and the same values.
pub unpack-pack :
    (es : List Int4)
    → (bytes : List ℕ) × (es' : List Int4) × (pack es ≡ ok bytes)
      × (length bytes ≡ (length es + 1) / 2)
      × (unpack bytes (length es) ≡ ok es')
      × (map to_bits es' ≡ map to_bits es)
      × (map to_int es' ≡ map to_int es)
unpack-pack es =
    let (bytes, e, packed) = pack_lem es in
    let canonical = λ (e : Int4). from_bits (to_bits e) in
    (
      bytes,
      map canonical es,
      e,
      packed.0,
      unpack_lem es bytes packed,
      map_same to_bits canonical es to_bits-from_bits,
      map_same to_int canonical es to_int-from_bits,
    )
