-- ===== src/Taslock/Moves.antt =====
-- What a step does to a processor and to the lock, when the lock is free, another processor's, or its
-- own.
use plan9_ocaml.Prelude.{
  ℕ, none, some, true, false, Bool, Option, ◌≡◌, ◌+◌, ◌==◌, arith, refl, inl, ◌⊎◌, inr,
  if◌then◌else◌,
}
use plan9_ocaml.Taslock.{
  first, again, can, int, is_int, away, lock_tas, lock_back, lock_wait, can_tas, can_back,
  ilock_tas, ilock_splx, ilock_wait, set_sr, set_pc, set_p, set_isilock, set_cpu, inside, clear_cpu,
  clear_key, cleared, Lock, Own, Place, Way, advance_at, give_up, try_lock, deccnt, spin, try_ilock,
  ispin, inccnt, unlock_end, unlock_start,
}
use plan9_ocaml.Taslock.Run.{
  IsLocal, IsLocalAt, IsHolder, HasLevel, holds, more, is_masked, is_deep, saved,
}

-- The step is no panic, and its outcome satisfies `R`.
unfoldable pub After : (Lock → Own → Type 0) → Option (Lock × Own) → Type 0
After R none = ⊥
After R (some (l, o)) = R l o

-- Nothing happens to the lock, and the processor does not hold it.
unfoldable pub Passes : (h : Own) → Lock → Lock → Own → Type 0
Passes h l l' o' = IsLocal h o' × (l' ≡ l) × (holds o'.place ≡ false)

unfoldable pub Wins : (i : ℕ) (h : Own) → Lock → Own → Type 0
Wins i h l' o' = IsLocal h o' × IsHolder i h l' o'.place

unfoldable pub Leaves : (h : Own) → Lock → Own → Type 0
Leaves h l' o' = IsLocal h o' × (l'.key ≡ 0) × (l'.cpu ≡ none) × (holds o'.place ≡ false)

give_up-Passes :
    (h : Own) (l : Lock) (o : Own) (next : Place)
    → o.nlocks ≡ h.nlocks + 1
    → o.islo ≡ h.islo
    → o.ilockdepth ≡ h.ilockdepth + 0
    → more next ≡ 0
    → is_masked next ≡ false
    → is_deep next ≡ false
    → saved next h.islo ≡ h.islo
    → holds next ≡ false
    → After (Passes h l) (give_up next l o)
unfolding give_up deccnt After Passes IsLocal IsLocalAt
give_up-Passes h l o next n lo d e1 e2 e3 e4 e5 =
    let some_locks : (o.nlocks == 0) ≡ false = ground arith in
    rw some_locks ((omega (arith, e1), rw e2 lo, rw e3 d, e4), refl, e5)

end-Passes :
    (h : Own) (l : Lock) (o : Own) (w : Way) (sr : Bool)
    → IsLocalAt h o (cleared w sr)
    → After (Passes h l) (unlock_end w sr l o)
unfolding unlock_end After Passes IsLocal IsLocalAt
end-Passes h l o first sr (n, lo, d, s) = give_up-Passes h l o away n lo d refl refl refl refl refl
end-Passes h l o again sr (n, lo, d, s) = give_up-Passes h l o away n lo d refl refl refl refl refl
end-Passes h l o can sr (n, lo, d, s) = give_up-Passes h l o away n lo d refl refl refl refl refl
end-Passes h l o int sr (n, lo, d, s) = ((n, s, omega (arith, d), refl), refl, refl)

pub busy-Passes :
    (i : ℕ) (h : Own) (l : Lock) (o : Own) (p : Place)
    → l.key ≡ 1
    → holds p ≡ false
    → IsLocalAt h o p
    → After (Passes h l) (advance_at i l o p)
unfolding advance_at try_lock spin try_ilock ispin After Passes IsLocal IsLocalAt inccnt unlock_end
busy-Passes i h l o away k f (n, lo, d, s) = ((n, lo, d, s), refl, refl)
busy-Passes i h l o (lock_tas retry) k f (n, lo, d, s) = rw k ((n, lo, d, s), refl, refl)
busy-Passes i h l o lock_back k f (n, lo, d, s) =
    give_up-Passes h l o lock_wait n lo d refl refl refl refl refl
busy-Passes i h l o lock_wait k f (n, lo, d, s) = rw k ((n, lo, d, s), refl, refl)
busy-Passes i h l o can_tas k f (n, lo, d, s) = rw k ((n, lo, d, s), refl, refl)
busy-Passes i h l o can_back k f (n, lo, d, s) =
    give_up-Passes h l o away n lo d refl refl refl refl refl
busy-Passes i h l o (ilock_tas x) k f (n, lo, d, s) = rw k ((n, lo, d, s), refl, refl)
busy-Passes i h l o (ilock_splx x) k f (n, lo, d, s) = ((n, s, d, refl), refl, refl)
busy-Passes i h l o ilock_wait k f (n, lo, d, s) = rw k ((n, lo, d, s), refl, refl)
busy-Passes i h l o (set_sr x) k f h' = absurd cc
busy-Passes i h l o (set_pc w) k f h' = absurd cc
busy-Passes i h l o (set_p w) k f h' = absurd cc
busy-Passes i h l o (set_isilock w) k f h' = absurd cc
busy-Passes i h l o (set_cpu w) k f h' = absurd cc
busy-Passes i h l o (inside w) k f h' = absurd cc
busy-Passes i h l o (clear_cpu w sr) k f h' = absurd cc
busy-Passes i h l o (clear_key w sr) k f h' = absurd cc
busy-Passes i h l o (cleared w sr) k f a = end-Passes h l o w sr a

unfoldable pub Tries : (i : ℕ) (h : Own) → Lock → Lock → Own → Type 0
Tries i h l l' o' = Passes h l l' o' ⊎ Wins i h l' o'

After-map :
    (R S : Lock → Own → Type 0) (x : Option (Lock × Own))
    → ((l : Lock) (o : Own) → R l o → S l o)
    → After R x
    → After S x
unfolding After
After-map R S none f a = a
After-map R S (some (l, o)) f a = f l o a

pub free-Tries :
    (i : ℕ) (h : Own) (l : Lock) (o : Own) (p : Place)
    → l.key ≡ 0
    → l.cpu ≡ none
    → holds p ≡ false
    → IsLocalAt h o p
    → After (Tries i h l) (advance_at i l o p)
unfolding advance_at try_lock spin try_ilock ispin After Passes Wins Tries IsLocal IsLocalAt inccnt
    IsHolder HasLevel
free-Tries i h l o away k c f (n, lo, d, s) = inl ((n, lo, d, s), refl, refl)
free-Tries i h l o (lock_tas true) k c f (n, lo, d, s) = rw k (inr ((n, lo, d, s), (refl, c, refl)))
free-Tries i h l o (lock_tas false) k c f (n, lo, d, s) =
    rw k (inr ((n, lo, d, s), (refl, c, refl)))
free-Tries i h l o lock_back k c f (n, lo, d, s) =
    After-map (Passes h l) (Tries i h l) (give_up lock_wait l o) (λ l' o'. inl)
      (give_up-Passes h l o lock_wait n lo d refl refl refl refl refl)
free-Tries i h l o lock_wait k c f (n, lo, d, s) =
    rw k (inl ((omega (arith, n), lo, d, s), refl, refl))
free-Tries i h l o can_tas k c f (n, lo, d, s) = rw k (inr ((n, lo, d, s), (refl, c, refl)))
free-Tries i h l o can_back k c f (n, lo, d, s) =
    After-map (Passes h l) (Tries i h l) (give_up away l o) (λ l' o'. inl)
      (give_up-Passes h l o away n lo d refl refl refl refl refl)
free-Tries i h l o (ilock_tas x) k c f (n, lo, d, s) =
    rw k (inr ((n, lo, omega (arith, d), s), (refl, c)))
free-Tries i h l o (ilock_splx x) k c f (n, lo, d, s) = inl ((n, s, d, refl), refl, refl)
free-Tries i h l o ilock_wait k c f (n, lo, d, s) = rw k (inl ((n, refl, d, lo), refl, refl))
free-Tries i h l o (set_sr x) k c f a = absurd cc
free-Tries i h l o (set_pc w) k c f a = absurd cc
free-Tries i h l o (set_p w) k c f a = absurd cc
free-Tries i h l o (set_isilock w) k c f a = absurd cc
free-Tries i h l o (set_cpu w) k c f a = absurd cc
free-Tries i h l o (inside w) k c f a = absurd cc
free-Tries i h l o (clear_cpu w sr) k c f a = absurd cc
free-Tries i h l o (clear_key w sr) k c f a = absurd cc
free-Tries i h l o (cleared w sr) k c f a =
    After-map (Passes h l) (Tries i h l) (unlock_end w sr l o) (λ l' o'. inl)
      (end-Passes h l o w sr a)

unfoldable pub Goes : (i : ℕ) (h : Own) → Lock → Own → Type 0
Goes i h l' o' = Wins i h l' o' ⊎ Leaves h l' o'

-- The value that `unlock` and `iunlock` go on with.
level :
    (h : Own) (l : Lock) (o : Own) (w : Way)
    → o.islo ≡ (if is_int w then false else h.islo)
    → HasLevel h w l
    → (if is_int w then l.sr else o.islo) ≡ h.islo
unfolding HasLevel
level h l o first lo v = lo
level h l o again lo v = lo
level h l o can lo v = lo
level h l o int lo v = v

pub holder-Goes :
    (i : ℕ) (h : Own) (l : Lock) (o : Own) (p : Place)
    → IsHolder i h l p
    → IsLocalAt h o p
    → After (Goes i h) (advance_at i l o p)
unfolding advance_at unlock_start After Wins Leaves Goes IsLocal IsLocalAt IsHolder HasLevel
holder-Goes i h l o (set_sr x) (k, c) (n, lo, d, s) = inl ((n, lo, d, refl), (k, c, s))
holder-Goes i h l o (set_pc w) (k, c, v) (n, lo, d, s) = inl ((n, lo, d, s), (k, c, v))
holder-Goes i h l o (set_p first) (k, c, v) (n, lo, d, s) = inl ((n, lo, d, s), (k, c, v, refl))
holder-Goes i h l o (set_p again) (k, c, v) (n, lo, d, s) = inl ((n, lo, d, s), (k, c, v, refl))
holder-Goes i h l o (set_p can) (k, c, v) (n, lo, d, s) =
    inl ((n, lo, d, s), (k, c, v, refl, refl, refl))
holder-Goes i h l o (set_p int) (k, c, v) (n, lo, d, s) = inl ((n, lo, d, s), (k, c, v, refl))
holder-Goes i h l o (set_isilock first) (k, c, v, q) (n, lo, d, s) =
    inl ((n, lo, d, s), (k, c, v, q, refl, refl))
holder-Goes i h l o (set_isilock again) (k, c, v, q) (n, lo, d, s) =
    inl ((n, lo, d, s), (k, c, v, q, refl))
holder-Goes i h l o (set_isilock can) (k, c, v, q) (n, lo, d, s) =
    inl ((n, lo, d, s), (k, c, v, q, refl))
holder-Goes i h l o (set_isilock int) (k, c, v, q) (n, lo, d, s) =
    inl ((n, lo, d, s), (k, c, v, q, refl, refl))
holder-Goes i h l o (set_cpu first) (k, c, v, q, m, z) (n, lo, d, s) =
    inl ((n, lo, d, s), (k, refl, v, q, m))
holder-Goes i h l o (set_cpu again) (k, c, v, q, m, z) (n, lo, d, s) = absurd cc
holder-Goes i h l o (set_cpu can) (k, c, v, q, m, z) (n, lo, d, s) =
    inl ((n, lo, d, s), (k, refl, v, q))
holder-Goes i h l o (set_cpu int) (k, c, v, q, m, z) (n, lo, d, s) =
    inl ((n, lo, d, s), (k, refl, v, q, m))
holder-Goes i h l o (inside w) (k, c, v, q, m) (n, lo, d, s) =
    inl ((n, lo, d, level h l o w lo v), k)
holder-Goes i h l o (clear_cpu w sr) k (n, lo, d, s) = inl ((n, lo, d, s), (k, refl))
holder-Goes i h l o (clear_key w sr) (k, c) (n, lo, d, s) = inr ((n, lo, d, s), refl, c, refl)
holder-Goes i h l o away k a = absurd k
holder-Goes i h l o lock_back k a = absurd k
holder-Goes i h l o lock_wait k a = absurd k
holder-Goes i h l o can_tas k a = absurd k
holder-Goes i h l o can_back k a = absurd k
holder-Goes i h l o ilock_wait k a = absurd k
holder-Goes i h l o (lock_tas retry) k a = absurd k
holder-Goes i h l o (ilock_tas x) k a = absurd k
holder-Goes i h l o (ilock_splx x) k a = absurd k
holder-Goes i h l o (cleared w sr) k a = absurd k
