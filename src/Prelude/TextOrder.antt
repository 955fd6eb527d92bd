-- ===== src/Prelude/TextOrder.antt =====
-- The order of texts by their characters is total and transitive.
use Prim.Native.Nat.compare as compare_ℕ
use Prim.Native.Nat.{ℕ, zero, suc, Ordering, compare as compare_ℕ}
use Prim.Native.Char.{code}
use Prim.Native.String.compare
use Prim.Native.String.{[] as empty_text, ◌∷◌ as ◌∷s◌, String, then, compare}
use text.Mathlib.Text.{is_le}
use mathlib.Core.Path.{◌≡◌, refl, sym, ap, ◌∙◌}
use mathlib.Core.Bool.{true, false}

flip : Ordering → Ordering
flip Ordering.lt = Ordering.gt
flip Ordering.eq = Ordering.eq
flip Ordering.gt = Ordering.lt

flip-then : (o r : Ordering) → flip (then o r) ≡ then (flip o) (flip r)
unfolding flip
flip-then Ordering.lt r = refl
flip-then Ordering.eq r = refl
flip-then Ordering.gt r = refl

compare_ℕ-flip : (m n : ℕ) → compare_ℕ n m ≡ flip (compare_ℕ m n)
unfolding flip
compare_ℕ-flip zero zero = rw compare_ℕ.zero-zero refl
compare_ℕ-flip zero (suc n) = compare_ℕ.suc-zero n ∙ sym (ap flip (compare_ℕ.zero-suc n))
compare_ℕ-flip (suc m) zero = compare_ℕ.zero-suc m ∙ sym (ap flip (compare_ℕ.suc-zero m))
compare_ℕ-flip (suc m) (suc n) =
    compare_ℕ.suc-suc n m ∙ compare_ℕ-flip m n ∙ sym (ap flip (compare_ℕ.suc-suc m n))

compare-flip : (s t : String) → compare t s ≡ flip (compare s t)
unfolding flip
compare-flip empty_text empty_text = compare.nil-nil ∙ sym (ap flip compare.nil-nil)
compare-flip empty_text (d ∷s t) = compare.cons-nil d t ∙ sym (ap flip (compare.nil-cons d t))
compare-flip (c ∷s s) empty_text = compare.nil-cons c s ∙ sym (ap flip (compare.cons-nil c s))
compare-flip (c ∷s s) (d ∷s t) =
    compare.cons-cons d c t s
    ∙ ap (λ o. then o (compare t s)) (compare_ℕ-flip (code c) (code d))
    ∙ ap (then (flip (compare_ℕ (code c) (code d)))) (compare-flip s t)
    ∙ sym (flip-then (compare_ℕ (code c) (code d)) (compare s t))
    ∙ sym (ap flip (compare.cons-cons c d s t))

flipped : (o : Ordering) → is_le o ≡ false → is_le (flip o) ≡ true
unfolding flip
flipped Ordering.lt h = absurd (cc)
flipped Ordering.eq h = absurd (cc)
flipped Ordering.gt h = refl

pub is_le_total : (s t : String) → is_le (compare s t) ≡ false → is_le (compare t s) ≡ true
is_le_total s t h = ap is_le (compare-flip s t) ∙ flipped (compare s t) h

-- How two comparisons in a row make a third.
Chain : Ordering → Ordering → Ordering → Type 0
Chain Ordering.lt Ordering.lt r = r ≡ Ordering.lt
Chain Ordering.lt Ordering.eq r = r ≡ Ordering.lt
Chain Ordering.lt Ordering.gt r = Unit
Chain Ordering.eq b r = r ≡ b
Chain Ordering.gt b r = Unit

lt_first : (b : Ordering) → Chain Ordering.lt b Ordering.lt
unfolding Chain
lt_first Ordering.lt = refl
lt_first Ordering.eq = refl
lt_first Ordering.gt = tt

lt_second : (a : Ordering) → Chain a Ordering.lt Ordering.lt
unfolding Chain
lt_second Ordering.lt = refl
lt_second Ordering.eq = refl
lt_second Ordering.gt = tt

gt_second : (a : Ordering) → Chain a Ordering.gt Ordering.gt
unfolding Chain
gt_second Ordering.lt = tt
gt_second Ordering.eq = refl
gt_second Ordering.gt = tt

Chain-same : (a b c a' b' c' : Ordering) → a ≡ a' → b ≡ b' → c ≡ c' → Chain a' b' c' → Chain a b c
Chain-same a b c a' b' c' p q r h = rw (p, q, r) h

Chain-numbers : (m n k : ℕ) → Chain (compare_ℕ m n) (compare_ℕ n k) (compare_ℕ m k)
unfolding Chain
Chain-numbers zero zero k = Chain-same _ _ _ _ _ _ compare_ℕ.zero-zero refl refl refl
Chain-numbers zero (suc n) zero =
    Chain-same _ _ _ _ _ _ (compare_ℕ.zero-suc n) (compare_ℕ.suc-zero n) refl tt
Chain-numbers zero (suc n) (suc k) =
    Chain-same _ _ _ _ _ _ (compare_ℕ.zero-suc n) refl (compare_ℕ.zero-suc k)
      (lt_first (compare_ℕ (suc n) (suc k)))
Chain-numbers (suc m) zero k = Chain-same _ _ _ _ _ _ (compare_ℕ.suc-zero m) refl refl tt
Chain-numbers (suc m) (suc n) zero =
    Chain-same _ _ _ _ _ _ refl (compare_ℕ.suc-zero n) (compare_ℕ.suc-zero m)
      (gt_second (compare_ℕ (suc m) (suc n)))
Chain-numbers (suc m) (suc n) (suc k) =
    Chain-same _ _ _ _ _ _ (compare_ℕ.suc-suc m n) (compare_ℕ.suc-suc n k) (compare_ℕ.suc-suc m k)
      (Chain-numbers m n k)

Chain-then :
    (a b c a' b' c' : Ordering)
    → Chain a b c
    → Chain a' b' c'
    → Chain (then a a') (then b b') (then c c')
unfolding Chain
Chain-then Ordering.lt Ordering.lt c a' b' c' h k = rw h refl
Chain-then Ordering.lt Ordering.eq c a' b' c' h k = rw h (lt_first b')
Chain-then Ordering.lt Ordering.gt c a' b' c' h k = tt
Chain-then Ordering.eq Ordering.lt c a' b' c' h k = rw h (lt_second a')
Chain-then Ordering.eq Ordering.eq c a' b' c' h k = rw h k
Chain-then Ordering.eq Ordering.gt c a' b' c' h k = rw h (gt_second a')
Chain-then Ordering.gt b c a' b' c' h k = tt

Chain-texts : (s t u : String) → Chain (compare s t) (compare t u) (compare s u)
unfolding Chain
Chain-texts empty_text empty_text u = Chain-same _ _ _ _ _ _ compare.nil-nil refl refl refl
Chain-texts empty_text (d ∷s t) empty_text =
    Chain-same _ _ _ _ _ _ (compare.nil-cons d t) (compare.cons-nil d t) refl tt
Chain-texts empty_text (d ∷s t) (e ∷s u) =
    Chain-same _ _ _ _ _ _ (compare.nil-cons d t) refl (compare.nil-cons e u)
      (lt_first (compare (d ∷s t) (e ∷s u)))
Chain-texts (c ∷s s) empty_text u = Chain-same _ _ _ _ _ _ (compare.cons-nil c s) refl refl tt
Chain-texts (c ∷s s) (d ∷s t) empty_text =
    Chain-same _ _ _ _ _ _ refl (compare.cons-nil d t) (compare.cons-nil c s)
      (gt_second (compare (c ∷s s) (d ∷s t)))
Chain-texts (c ∷s s) (d ∷s t) (e ∷s u) =
    Chain-same _ _ _ _ _ _ (compare.cons-cons c d s t) (compare.cons-cons d e t u)
      (compare.cons-cons c e s u)
      (Chain-then (compare_ℕ (code c) (code d)) (compare_ℕ (code d) (code e))
        (compare_ℕ (code c) (code e)) (compare s t) (compare t u) (compare s u)
        (Chain-numbers (code c) (code d) (code e)) (Chain-texts s t u))

chained : (a b c : Ordering) → Chain a b c → is_le a ≡ true → is_le b ≡ true → is_le c ≡ true
unfolding Chain
chained Ordering.lt Ordering.lt c h p q = rw h refl
chained Ordering.lt Ordering.eq c h p q = rw h refl
chained Ordering.lt Ordering.gt c h p q = absurd (cc)
chained Ordering.eq b c h p q = rw h q
chained Ordering.gt b c h p q = absurd (cc)

pub is_le_trans :
    (s t u : String)
    → is_le (compare s t) ≡ true
    → is_le (compare t u) ≡ true
    → is_le (compare s u) ≡ true
is_le_trans s t u = chained (compare s t) (compare t u) (compare s u) (Chain-texts s t u)
