-- ===== src/Bptc/Interleaving.antt =====
-- dmr-wire/src/bptc.rs: the order in which the entries of the matrix are sent.
use asl_dmr_bridge.Base.{
  ℕ, zero, suc, ◌+◌, ◌*◌, ◌%◌, ◌≤◌, ◌<◌, ◌≡◌, ◌≢◌, refl, arith, List, [], ◌∷◌, map, true, ap, ap₂,
  sym, ◌∙◌, length, get_or, set, range_from, replicate, map-range_from_cong, tabulate, ◌==◌,
  length-set, get_or-set, get_or-set_other, each_below, each_below_sound,
}
use asl_dmr_bridge.Fec.{◌⊕◌, bit}
use asl_dmr_bridge.Fec.Hamming.{with_error}
use asl_dmr_bridge.Bptc.{place, interleave, deinterleave, bptc_encode}
use asl_dmr_bridge.Bptc.Product.{encoded_matrix, deinterleave-interleave}

-- Which bit of the interleaved word an entry of the matrix is, and back.
pub sent_at_table : each_below 196 (λ j. (((j * 181) % 196) * 13) % 196 == j) ≡ true
unfolding each_below
sent_at_table = refl

pub sent_from_table : each_below 196 (λ a. (((a * 13) % 196) * 181) % 196 == a) ≡ true
unfolding each_below
sent_from_table = refl

pub length-place : (ps vs m : List ℕ) → length (place ps vs m) ≡ length m
unfolding place
length-place [] vs m = refl
length-place (p ∷ ps) [] m = refl
length-place (p ∷ ps) (v ∷ vs) m = length-place ps vs (set m p v) ∙ length-set m p v

pub get_or-tabulated :
    (f : ℕ → ℕ) (i n k : ℕ) → k < n → get_or (map f (range_from i n)) k 0 ≡ f (i + k)
unfolding range_from
get_or-tabulated f i zero k h = absurd (omega (arith, h))
get_or-tabulated f i (suc n) zero h = ap f (omega arith)
get_or-tabulated f i (suc n) (suc k) h =
    get_or-tabulated f (i + 1) n k (omega (arith, h)) ∙ ap f (omega arith)

-- Two arrays that agree but for one index.
pub tabulated-set :
    (f g : ℕ → ℕ) (i n k v : ℕ)
    → k < n
    → g (i + k) ≡ v
    → ((j : ℕ) → i ≤ j → j < i + n → j ≢ i + k → g j ≡ f j)
    → map g (range_from i n) ≡ set (map f (range_from i n)) k v
unfolding range_from
tabulated-set f g i zero k v h e same = absurd (omega (arith, h))
tabulated-set f g i (suc n) zero v h e same = ap₂ ◌∷◌ (ap g (omega arith) ∙ e) (
    map-range_from_cong g f (i + 1) n (λ j low high.
      same j (omega (arith, low)) (omega (arith, high)) (λ k. omega (arith, k, low))))
tabulated-set f g i (suc n) (suc k) v h e same =
    ap₂ ◌∷◌ (same i (omega arith) (omega arith) (λ k. omega (arith, k))) (
      tabulated-set f g (i + 1) n k v (omega (arith, h)) (ap g (omega arith) ∙ e)
        (λ j low high other.
          same j (omega (arith, low)) (omega (arith, high)) (λ k. other (omega (arith, k)))))

pub length-interleave : (matrix : List ℕ) → length (interleave matrix) ≡ 196
unfolding interleave
length-interleave matrix =
    length-place (map (λ i. (i * 181) % 196) (range_from 0 196)) matrix (replicate 196 0)

pub length-bptc_encode : (bits : List ℕ) → length (bptc_encode bits) ≡ 196
unfolding bptc_encode encoded_matrix
length-bptc_encode bits = length-interleave (encoded_matrix bits)

-- A bit that arrives wrong is a wrong entry of the matrix.
pub deinterleave-with_error :
    (matrix : List ℕ) (at : ℕ)
    → length matrix ≡ 196
    → at < 196
    → deinterleave (with_error (interleave matrix) at) ≡ with_error matrix ((at * 13) % 196)
unfolding deinterleave tabulate
deinterleave-with_error matrix at size h =
    tabulated-set (λ i. get_or x ((i * 181) % 196) 0)
      (λ i. get_or (with_error x at) ((i * 181) % 196) 0) 0 196 pos (bit x at ⊕ 1) (omega arith) hit
      others
    ∙ ap₂ (λ m v. set m pos (v ⊕ 1)) (deinterleave-interleave matrix size) entry
  where
    x : List ℕ
    x = interleave matrix

    pos : ℕ
    pos = (at * 13) % 196

    back : (pos * 181) % 196 ≡ at
    back = ground (
      arith,
      each_below_sound 196 (λ a. (((a * 13) % 196) * 181) % 196 == a) at sent_from_table h,
    )

    hit : get_or (with_error x at) (((0 + pos) * 181) % 196) 0 ≡ bit x at ⊕ 1
    hit =
        ap (λ i. get_or (with_error x at) i 0) (omega (arith, back))
        ∙ get_or-set x at (bit x at ⊕ 1) 0 (omega (arith, h, length-interleave matrix))

    others :
        (j : ℕ)
        → 0 ≤ j
        → j < 0 + 196
        → j ≢ 0 + pos
        → get_or (with_error x at) ((j * 181) % 196) 0 ≡ get_or x ((j * 181) % 196) 0
    others j low high other = get_or-set_other x at ((j * 181) % 196) _ 0 (λ e. other (
        ground (
          arith,
          e,
          each_below_sound 196 (λ j. (((j * 181) % 196) * 13) % 196 == j) j sent_at_table,
        )))

    entry : bit x at ≡ bit matrix pos
    entry =
        ap (λ i. get_or x i 0) (omega (arith, back))
        ∙ sym (get_or-tabulated (λ i. get_or x ((i * 181) % 196) 0) 0 196 pos (omega arith))
        ∙ ap (λ m. get_or m pos 0) (deinterleave-interleave matrix size)
