-- ===== src/Prelude/Slices.antt =====
-- Slices of byte buffers, as Rust takes them: out of bounds is a panic, here `none`.
use Prim.Native.Nat.{ℕ, zero, suc, ◌+◌, ◌-◌, ◌≤◌}
use mathlib.Core.Path.{◌≡◌, refl, ap, ◌∙◌}
use mathlib.Core.Bool.{◌&&◌}
use mathlib.Core.Option.{Option, none, some}
use mathlib.Core.List.{List, [], ◌∷◌, ◌++◌}
use native.Mathlib.Omega.{arith}
use swifttunnel_relay.Prelude.Tests.{if◌then◌else◌, leb}
use swifttunnel_relay.Prelude.Lists.{length, get_elem?, take, drop, length-append}
use swifttunnel_relay.Prelude.Keys.{Bytes}

-- `&buf[first..last]`
unfoldable pub slice : Bytes → ℕ → ℕ → Option Bytes
slice buf first last =
    if leb first last && leb last (length buf)
    then some (take (last - first) (drop first buf))
    else none

infixl 5 ◌>>=◌
abbrev pub ◌>>=◌ {ℓ κ} : {A : Type ℓ} {B : Type κ} → Option A → (A → Option B) → Option B
none >>= f = none
some a >>= f = f a

module _ {ℓ} {A : Type ℓ} where
  pub get_elem?-append_right :
      (xs ys : List A) (i : ℕ) → get_elem? (xs ++ ys) (length xs + i) ≡ get_elem? ys i
  get_elem?-append_right [] ys i = ap (get_elem? ys) (omega arith)
  get_elem?-append_right (x ∷ xs) ys i =
      let e : suc (length xs) + i ≡ suc (length xs + i) = omega arith in
      ap (get_elem? (x ∷ xs ++ ys)) e ∙ get_elem?-append_right xs ys i

  pub drop-append : (xs ys : List A) → drop (length xs) (xs ++ ys) ≡ ys
  drop-append [] ys = refl
  drop-append (x ∷ xs) ys = drop-append xs ys

  pub take-append : (xs ys : List A) → take (length xs) (xs ++ ys) ≡ xs
  take-append [] ys = refl
  take-append (x ∷ xs) ys = ap (◌∷◌ x) (take-append xs ys)

  pub take-drop : (n : ℕ) (xs : List A) → take n xs ++ drop n xs ≡ xs
  take-drop zero xs = refl
  take-drop (suc n) [] = refl
  take-drop (suc n) (x ∷ xs) = ap (◌∷◌ x) (take-drop n xs)

pub slice-some :
    (buf : Bytes) (first last : ℕ)
    → first ≤ last
    → last ≤ length buf
    → slice buf first last ≡ some (take (last - first) (drop first buf))
unfolding slice
slice-some buf first last h k = ground arith

-- The middle part of a buffer.
pub slice_middle :
    (a b c : Bytes) (first last : ℕ)
    → first ≡ length a
    → last ≡ length a + length b
    → slice (a ++ (b ++ c)) first last ≡ some b
slice_middle a b c first last f l =
    rw
      (slice-some (a ++ (b ++ c)) first last (omega arith)
        (omega (arith, length-append a (b ++ c), length-append b c)))
      (ap some (middle))
  where
    middle : take (last - first) (drop first (a ++ (b ++ c))) ≡ b
    middle =
        let n : last - first ≡ length b = omega arith in
        rw (n, f, drop-append a (b ++ c)) (take-append b c)
