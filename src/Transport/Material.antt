-- ===== src/Transport/Material.antt =====
-- generateKeyMaterial yields the key stream of RFC 4253, section 7.2, cut to the length asked for.
use xcryptossh.Prelude.{
  ℕ, zero, suc, ◌+◌, ◌-◌, ◌≤◌, ◌<◌, ◌≡◌, refl, List, [], ◌∷◌, ◌++◌, Bytes, true, ◌==◌, length, take,
  arith, append_assoc, append-nil, ap, ◌∙◌, sym, Bool-cases, inl, inr, length-append, length-take,
}
use xcryptossh.Transport.Keys.{KexResult, seed, digest, material_loop, generate_key_material}

-- K1 || ... || Kn, where K1 = HASH(K || H || X || session_id) and each other
-- Ki = HASH(K || H || K1 || ... || K(i-1)).
unfoldable pub key_stream : ℕ → Bytes → KexResult → Bytes
key_stream zero tag r = []
key_stream (suc zero) tag r = r.hash.sum (r.k ++ (r.h ++ (tag ++ r.session_id)))
key_stream (suc (suc n)) tag r =
    let before = key_stream (suc n) tag r in before ++ r.hash.sum (r.k ++ (r.h ++ before))

seed_lem : (xs tag : Bytes) (r : KexResult) → 0 < length xs → seed xs tag r ≡ xs
seed_lem [] tag r h = elim h [ ]
seed_lem (x ∷ xs) tag r h = refl

key_stream_pos : (m : ℕ) (tag : Bytes) (r : KexResult) → 0 < length (key_stream (suc m) tag r)
unfolding key_stream
key_stream_pos zero tag r =
    omega (arith, r.hash.length-sum (r.k ++ (r.h ++ (tag ++ r.session_id))), r.hash.not_empty)
key_stream_pos (suc m) tag r = omega (
  arith,
  length-append (key_stream (suc m) tag r) (r.hash.sum (r.k ++ (r.h ++ key_stream (suc m) tag r))),
  key_stream_pos m tag r,
)

key_stream-suc :
    (m : ℕ) (tag : Bytes) (r : KexResult)
    → key_stream (suc m) tag r ≡ key_stream m tag r ++ digest (key_stream m tag r) tag r
unfolding key_stream
key_stream-suc zero tag r = refl
key_stream-suc (suc m) tag r =
    ap (λ z. key_stream (suc m) tag r ++ r.hash.sum (r.k ++ (r.h ++ z)))
      (sym (seed_lem (key_stream (suc m) tag r) tag r (key_stream_pos m tag r)))

-- The digests from the m-th on.
from : ℕ → ℕ → Bytes → KexResult → Bytes
from m zero tag r = []
from m (suc f) tag r = digest (key_stream m tag r) tag r ++ from (suc m) f tag r

key_stream-from :
    (m f : ℕ) (tag : Bytes) (r : KexResult)
    → key_stream m tag r ++ from m f tag r ≡ key_stream (m + f) tag r
unfolding from
key_stream-from m zero tag r = append-nil _ ∙ ap (λ k. key_stream k tag r) (omega arith)
key_stream-from m (suc f) tag r =
    sym
      (append_assoc (key_stream m tag r) (digest (key_stream m tag r) tag r) (from (suc m) f tag r))
    ∙ ap (λ l. l ++ from (suc m) f tag r) (sym (key_stream-suc m tag r))
    ∙ key_stream-from (suc m) f tag r
    ∙ ap (λ k. key_stream k tag r) (omega arith)

take-nil {ℓ} : {A : Type ℓ} (n : ℕ) → take {A = A} n [] ≡ []
take-nil zero = refl
take-nil (suc n) = refl

sub_zero : (n : ℕ) → n ≡ n - 0
sub_zero n = omega arith

zero_sub : (n : ℕ) → 0 ≡ 0 - n
zero_sub n = omega arith

same_rest : (n k : ℕ) → n - k ≡ suc n - suc k
same_rest n k = omega arith

take_append {ℓ} :
    {A : Type ℓ} (n : ℕ) (xs ys : List A) → take n (xs ++ ys) ≡ take n xs ++ take (n - length xs) ys
take_append zero [] ys = refl
take_append (suc n) [] ys = ap (λ k. take k ys) (sub_zero (suc n))
take_append zero (x ∷ xs) ys = ap (λ k. take k ys) (zero_sub (suc (length xs)))
take_append (suc n) (x ∷ xs) ys =
    ap (λ l. x ∷ l)
      (take_append n xs ys ∙ ap (λ k. take n xs ++ take k ys) (same_rest n (length xs)))

zero_add : (n : ℕ) → 0 + n ≡ n
zero_add n = omega arith

zero-eq : (n : ℕ) → (n == 0) ≡ true → 0 ≡ n
zero-eq n h = ground arith

material_loop-from :
    (fuel n m : ℕ) (tag : Bytes) (r : KexResult)
    → n ≤ fuel
    → material_loop fuel n (key_stream m tag r) tag r ≡ take n (from m fuel tag r)
unfolding material_loop from
material_loop-from zero n m tag r h = sym (take-nil n)
material_loop-from (suc fuel) n m tag r h = elim (Bool-cases (n == 0)) [
  | inl done ↦ rw done (ap (λ k. take k (from m (suc fuel) tag r)) (zero-eq n done))
  | inr more ↦
      let d : Bytes = digest (key_stream m tag r) tag r in
      let long : length d ≡ r.hash.size = r.hash.length-sum _ in
      rw more (
        ap (λ s. take n d ++ material_loop fuel (n - length d) s tag r)
          (sym (key_stream-suc m tag r))
        ∙ ap (λ l. take n d ++ l)
            (material_loop-from fuel (n - length d) (suc m) tag r
              (ground (arith, r.hash.not_empty)))
        ∙ sym (take_append n d (from (suc m) fuel tag r)))
]

length-from : (m f : ℕ) (tag : Bytes) (r : KexResult) → f ≤ length (from m f tag r)
unfolding from
length-from m zero tag r = omega arith
length-from m (suc f) tag r = omega (
  arith,
  length-append (digest (key_stream m tag r) tag r) (from (suc m) f tag r),
  length-from (suc m) f tag r,
  r.hash.length-sum (r.k ++ (r.h ++ seed (key_stream m tag r) tag r)),
  r.hash.not_empty,
)

-- generateKeyMaterial fills the whole slice, with the first bytes of the key stream.
pub generate_key_material_lem :
    (n : ℕ) (tag : Bytes) (r : KexResult)
    → (generate_key_material n tag r ≡ take n (key_stream n tag r))
      × (length (generate_key_material n tag r) ≡ n)
unfolding generate_key_material key_stream
generate_key_material_lem n tag r =
    let whole : from 0 n tag r ≡ key_stream n tag r =
      key_stream-from 0 n tag r ∙ ap (λ k. key_stream k tag r) (zero_add n) in
    let all : material_loop n n [] tag r ≡ take n (key_stream n tag r) =
      material_loop-from n n 0 tag r (omega arith) ∙ ap (take n) whole in
    (
      all,
      omega (
        arith,
        ap length all,
        length-take n (key_stream n tag r),
        ap length whole,
        length-from 0 n tag r,
      ),
    )
