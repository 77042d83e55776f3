-- ===== src/Client/Timers.antt =====
-- The two timers of a client: the heartbeat that closes a silent connection, and the delayed send.
use cpp_network_obj.Base.{
  ℕ, ◌+◌, ◌<◌, ◌≡◌, refl, ap, ◌∙◌, Bool, true, false, List, [], ◌∷◌, pos, leb, ◌+ℤ◌, if◌then◌else◌,
  arith,
}
use cpp_network_obj.Client.{CellClient, reset_dt_heart, check_heart}

abbrev pub sum : List ℕ → ℕ
sum [] = 0
sum (x ∷ xs) = x + sum xs

-- The checks of a client that stays silent for the given times one after another: whether one of
-- them finds it dead. A dead client is not checked again.
unfoldable pub silent : CellClient → List ℕ → Bool
silent c [] = false
silent c (d ∷ ds) =
    let (dead, c') = check_heart c (pos d) in let rest = silent c' ds in if dead then true else rest

silent-sum :
    (h : ℕ) (c : CellClient) (ds : List ℕ)
    → c.dt_heart ≡ pos h
    → h < 60000
    → silent c ds ≡ leb 60000 (h + sum ds)
unfolding silent check_heart ◌+ℤ◌
silent-sum h c [] e k = ground arith
silent-sum h c (d ∷ ds) e k =
    ground (arith, silent-sum (h + d) (record c { dt_heart = pos (h + d) }) ds refl)

-- After a reset of the heartbeat, a client that stays silent is found dead exactly when its silent
-- time adds up to 60000 milliseconds, in however many checks that time passes.
pub heart_dead_iff :
    (c : CellClient) (ds : List ℕ) → silent (reset_dt_heart c) ds ≡ leb 60000 (sum ds)
unfolding reset_dt_heart
heart_dead_iff c ds =
    silent-sum 0 (record c { dt_heart = pos 0 }) ds refl (omega arith)
    ∙ ap (leb 60000) (omega arith)
