-- ===== src/Packet/Response/Layout.antt =====
-- What a run of consecutive writes leaves in a buffer (src/main.rs and src/datapath_v2.rs).
use swifttunnel_relay.Prelude.{
  ℕ, suc, ◌≡◌, ◌∙◌, ap, sym, refl, [], ◌∷◌, ◌++◌, arith, Bytes, length, set,
}
use swifttunnel_relay.Packet.Response.{write_all}

write_all-cons :
    (x : ℕ) (i : ℕ) (vs xs : Bytes) → write_all (suc i) vs (x ∷ xs) ≡ x ∷ write_all i vs xs
unfolding write_all
write_all-cons x i [] xs = refl
write_all-cons x i (v ∷ vs) xs = write_all-cons x (suc i) vs (set xs i v)

write_all-front :
    (vs old rest : Bytes) → length vs ≡ length old → write_all 0 vs (old ++ rest) ≡ vs ++ rest
unfolding write_all
write_all-front [] [] rest h = refl
write_all-front [] (x ∷ old) rest h = absurd (omega arith)
write_all-front (v ∷ vs) [] rest h = absurd (omega arith)
write_all-front (v ∷ vs) (x ∷ old) rest h =
    write_all-cons v 0 vs (old ++ rest) ∙ ap (◌∷◌ v) (write_all-front vs old rest (omega arith))

-- Consecutive writes replace exactly the part of the buffer at their positions.
pub write_all-middle :
    (before vs old rest : Bytes) (i : ℕ)
    → i ≡ length before
    → length vs ≡ length old
    → write_all i vs (before ++ (old ++ rest)) ≡ before ++ (vs ++ rest)
write_all-middle [] vs old rest i e h = rw e (write_all-front vs old rest h)
write_all-middle (x ∷ before) vs old rest i e h = rw e (
    write_all-cons x (length before) vs (before ++ (old ++ rest))
    ∙ ap (◌∷◌ x) (write_all-middle before vs old rest (length before) refl h))

append-nil : (xs : Bytes) → xs ++ [] ≡ xs
append-nil [] = refl
append-nil (x ∷ xs) = ap (◌∷◌ x) (append-nil xs)

pub write_all-end :
    (before vs old : Bytes) (i : ℕ)
    → i ≡ length before
    → length vs ≡ length old
    → write_all i vs (before ++ old) ≡ before ++ vs
write_all-end before vs old i e h =
    let m = write_all-middle before vs old [] i e h in
    ap (λ r. write_all i vs (before ++ r)) (sym (append-nil old))
    ∙ m
    ∙ ap (λ r. before ++ r) (append-nil vs)
