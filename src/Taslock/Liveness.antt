-- ===== src/Taslock/Liveness.antt =====
-- From every state that is reached there are steps after which a given waiting processor has the lock.
-- Other schedules may keep it waiting: the lock is not fair.
use mathlib.Core.Path.{subst, sym}
use plan9_ocaml.Prelude.{
  ℕ, none, some, zero, suc, true, false, Bool, ◌≡◌, inl, inr, and_then, Option, refl, ◌≢◌, ◌∙◌, ◌≤◌,
  arith, sym,
}
use plan9_ocaml.Taslock.{
  first, again, can, int, away, lock_tas, lock_back, lock_wait, can_tas, can_back, ilock_tas,
  ilock_splx, ilock_wait, set_sr, set_pc, set_p, set_isilock, set_cpu, inside, clear_cpu, clear_key,
  cleared, Way, Lock, Own, Place, advance, advance_at, unlock_start, spin, ispin, try_lock,
  try_ilock, inccnt,
}
use plan9_ocaml.Taslock.Run.{IsHolder, System, Reach, IsStart, update}
use plan9_ocaml.Taslock.Moves.{After}
use plan9_ocaml.Taslock.Invariant.{IsFree, IsHeld, Reach-IsValid, update-other, update-same}

-- `n` steps of processor `i` alone.
alone : (n : ℕ) (i : ℕ) → Lock → Own → Place → Option (Lock × Own)
alone zero i l o p = some (l, record o { place = p })
alone (suc n) i l o p =
    and_then {B = Lock × Own} (advance_at i l o p) (λ (r : Lock × Own). alone n i r.0 r.1 r.1.place)

-- The same in a system.
pub moves : (n : ℕ) (i : ℕ) → System → Option System
moves zero i s = some s
moves (suc n) i s =
    and_then {B = System} (advance i s.lock (s.own i))
      (λ (r : Lock × Own). moves n i (record { lock = r.0; own = update s.own i r.1 }))

unfoldable Frees : Lock → Own → Type 0
Frees l o = l.key ≡ 0

abbrev if_again : Way → ℕ → ℕ → ℕ
if_again again m n = m
if_again first m n = n
if_again can m n = n
if_again int m n = n

-- How many steps the holder needs to reset the key.
abbrev left : Place → ℕ
left (set_sr x) = 8
left (set_pc w) = if_again w 6 7
left (set_p w) = if_again w 5 6
left (set_isilock first) = 5
left (set_isilock int) = 5
left (set_isilock again) = 4
left (set_isilock can) = 4
left (set_cpu can) = 5
left (set_cpu first) = 4
left (set_cpu again) = 4
left (set_cpu int) = 4
left (inside w) = 3
left (clear_cpu w sr) = 2
left (clear_key w sr) = 1
left _ = 0

holder-Frees :
    (i : ℕ) (h : Own) (l : Lock) (o : Own) (p : Place)
    → IsHolder i h l p
    → After Frees (alone (left p) i l o p)
unfolding alone advance_at unlock_start After Frees IsHolder
holder-Frees i h l o (set_sr x) k = refl
holder-Frees i h l o (set_pc first) k = refl
holder-Frees i h l o (set_pc again) k = refl
holder-Frees i h l o (set_pc can) k = refl
holder-Frees i h l o (set_pc int) k = refl
holder-Frees i h l o (set_p first) k = refl
holder-Frees i h l o (set_p again) k = refl
holder-Frees i h l o (set_p can) k = refl
holder-Frees i h l o (set_p int) k = refl
holder-Frees i h l o (set_isilock first) k = refl
holder-Frees i h l o (set_isilock again) k = refl
holder-Frees i h l o (set_isilock can) k = refl
holder-Frees i h l o (set_isilock int) k = refl
holder-Frees i h l o (set_cpu first) k = refl
holder-Frees i h l o (set_cpu again) k = refl
holder-Frees i h l o (set_cpu can) k = refl
holder-Frees i h l o (set_cpu int) k = refl
holder-Frees i h l o (inside w) k = refl
holder-Frees i h l o (clear_cpu w sr) k = refl
holder-Frees i h l o (clear_key w sr) k = refl
holder-Frees i h l o away k = absurd k
holder-Frees i h l o lock_back k = absurd k
holder-Frees i h l o lock_wait k = absurd k
holder-Frees i h l o can_tas k = absurd k
holder-Frees i h l o can_back k = absurd k
holder-Frees i h l o ilock_wait k = absurd k
holder-Frees i h l o (lock_tas x) k = absurd k
holder-Frees i h l o (ilock_tas x) k = absurd k
holder-Frees i h l o (ilock_splx x) k = absurd k
holder-Frees i h l o (cleared w sr) k = absurd k

-- The processor has the lock and the function has returned.
pub IsIn : Lock → Own → Type 0
IsIn l o = (w : Way) × (o.place ≡ inside w)

-- How many steps a waiting processor needs when the lock is free.
abbrev pub ahead : Place → ℕ
ahead lock_wait = 5
ahead ilock_wait = 7
ahead _ = 0

-- Whether it waits for the key to be reset.
abbrev pub waits : Place → Bool
waits lock_wait = true
waits ilock_wait = true
waits _ = false

waiter-enters :
    (i : ℕ) (l : Lock) (o : Own) (p : Place)
    → waits p ≡ true
    → l.key ≡ 0
    → After IsIn (alone (ahead p) i l o p)
unfolding alone advance_at spin ispin try_lock try_ilock inccnt After IsIn
waiter-enters i l o lock_wait q k = rw k (again, refl)
waiter-enters i l o ilock_wait q k = rw k (int, refl)
waiter-enters i l o p q k = absurd (ground arith)

-- The steps are no panic and lead to a system of which `P` holds.
pub Leads : (System → Type 0) → Option System → Type 0
Leads P none = ⊥
Leads P (some s) = P s

Leads-map :
    (P Q : System → Type 0) (x : Option System) → ((s : System) → P s → Q s) → Leads P x → Leads Q x
unfolding Leads
Leads-map P Q none f a = a
Leads-map P Q (some s) f a = f s a

Leads-then :
    (P Q : System → Type 0) (x : Option System) (f : System → Option System)
    → ((s : System) → P s → Leads Q (f s))
    → Leads P x
    → Leads Q (and_then x f)
unfolding Leads
Leads-then P Q none f g a = a
Leads-then P Q (some s) f g a = g s a

-- Steps of one processor alone, in the system: the others stay as they are.
unfoldable Alone : (Lock → Own → Type 0) → ℕ → System → System → Type 0
Alone R k s u = R u.lock (u.own k) × ((j : ℕ) → k ≢ j → u.own j ≡ s.own j)

moves-Alone :
    (R : Lock → Own → Type 0) (n k : ℕ) (s : System)
    → After R (alone n k s.lock (s.own k) (s.own k).place)
    → Leads (Alone R k s) (moves n k s)
unfolding moves alone After Leads Alone advance
moves-Alone R zero k s a = (a, λ j h. refl)
moves-Alone R (suc n) k s a =
    stepped (advance_at k s.lock (s.own k) (s.own k).place) (λ u. moves-Alone R n k u) a
  where
    next : Lock × Own → System
    next r = record { lock = r.0; own = update s.own k r.1 }

    stepped :
        (x : Option (Lock × Own))
        → ((u : System)
            → After R (alone n k u.lock (u.own k) (u.own k).place)
            → Leads (Alone R k u) (moves n k u))
        → After R (and_then x (λ (r : Lock × Own). alone n k r.0 r.1 r.1.place))
        → Leads (Alone R k s) (and_then x (λ (r : Lock × Own). moves n k (next r)))
    stepped none go b = b
    stepped (some (l, o)) go b =
        Leads-map (Alone R k (next (l, o))) (Alone R k s) (moves n k (next (l, o)))
          (λ u (done, same). (done, λ j h. same j h ∙ update-other s.own k j o h))
          (go (next (l, o)) (rw (update-same s.own k o) b))

-- The steps of `k`, and then those of `i`.
pub both : (n k m i : ℕ) → System → Option System
both n k m i s = and_then {B = System} (moves n k s) (moves m i)

holder_waits_not : (i : ℕ) (h : Own) (l : Lock) (p : Place) → IsHolder i h l p → waits p ≢ true
unfolding IsHolder
holder_waits_not i h l lock_wait k q = k
holder_waits_not i h l ilock_wait k q = k
holder_waits_not i h l p k q = ground arith

left-le : (p : Place) → left p ≤ 8
left-le p = ground arith

ahead-le : (p : Place) → ahead p ≤ 7
ahead-le p = ground arith

-- In every state that is reached from a free lock, for a processor that waits in `lock` or `ilock`: there
-- is a schedule, of at most 8 steps of one processor, the holder, and then at most 7 of its own, that leads
-- with no panic to where its function returns with the lock. So no state shuts a waiting processor out;
-- other schedules may still let others go first, without end.
pub lock_reachable :
    (s t : System) (i : ℕ)
    → IsStart s
    → Reach s t
    → waits (t.own i).place ≡ true
    → (n : ℕ) × (k : ℕ) × (m : ℕ) × (n ≤ 8)
      × (m ≤ 7)
      × Leads (λ (u : System). IsIn u.lock (u.own i)) (both n k m i t)
unfolding IsFree IsHeld both Alone Frees moves
lock_reachable s t i b r q =
    let v = Reach-IsValid s t b r in
    elim v.held [
      | inl (key, c, none_holds) ↦
          (0, i, ahead (t.own i).place, omega arith, ahead-le (t.own i).place, entered t refl key)
      | inr (k, (own, others)) ↦
          let ne : k ≢ i = λ g.
            holder_waits_not k (s.own k) t.lock (t.own k).place own
              (subst (λ (x : ℕ). waits (t.own x).place ≡ true) (sym g) q) in
          (
            left (t.own k).place,
            k,
            ahead (t.own i).place,
            left-le (t.own k).place,
            ahead-le (t.own i).place,
            Leads-then (Alone Frees k t) (λ (w : System). IsIn w.lock (w.own i))
                (moves (left (t.own k).place) k t) (moves (ahead (t.own i).place) i)
                (λ u (free, same). entered u (same i ne) free)
                (moves-Alone Frees (left (t.own k).place) k t
                  (holder-Frees k (s.own k) t.lock (t.own k) (t.own k).place own)),
          )
    ]
  where
    entered :
        (u : System)
        → u.own i ≡ t.own i
        → u.lock.key ≡ 0
        → Leads (λ (w : System). IsIn w.lock (w.own i)) (moves (ahead (t.own i).place) i u)
    entered u same key =
        subst
          (λ (x : Own). Leads (λ (w : System). IsIn w.lock (w.own i)) (moves (ahead x.place) i u))
          same
          (Leads-map (Alone IsIn i u) (λ (w : System). IsIn w.lock (w.own i))
            (moves (ahead (u.own i).place) i u) (λ w (a, others). a)
            (moves-Alone IsIn (ahead (u.own i).place) i u
              (waiter-enters i u.lock (u.own i) (u.own i).place (rw same q) key)))
