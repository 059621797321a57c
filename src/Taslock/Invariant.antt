-- ===== src/Taslock/Invariant.antt =====
-- What holds in every state that the processors reach: at most one has the lock.
use mathlib.Core.Path.{subst, sym}
use plan9_ocaml.Prelude.{
  ℕ, none, some, true, false, ◌≡◌, inl, inr, ◌⊎◌, ◌≢◌, Bool-cases, ◌==◌, arith, refl, Option, sym,
}
use plan9_ocaml.Taslock.{
  lock_tas, lock_back, lock_wait, can_tas, can_back, ilock_tas, ilock_splx, ilock_wait, set_sr,
  set_pc, set_p, set_isilock, set_cpu, inside, clear_cpu, clear_key, cleared, away, lock, canlock,
  ilock, Lock, Own, Place, Call, advance, enter, inccnt,
}
use plan9_ocaml.Taslock.Run.{
  IsLocal, IsLocalAt, IsHolder, holds, System, Reach, call, move, start, later, IsStart, update,
}
use plan9_ocaml.Taslock.Moves.{
  After, Passes, Wins, Leaves, Tries, Goes, busy-Passes, free-Tries, holder-Goes,
}

unfoldable pub IsFree : System → Type 0
IsFree s = (s.lock.key ≡ 0) × (s.lock.cpu ≡ none) × ((i : ℕ) → holds (s.own i).place ≡ false)

-- Processor `k` has the lock, and no other.
unfoldable pub IsHeld : (home : ℕ → Own) (s : System) (k : ℕ) → Type 0
IsHeld home s k =
    IsHolder k (home k) s.lock (s.own k).place × ((j : ℕ) → k ≢ j → holds (s.own j).place ≡ false)

-- The processors are at places of the code with the states that belong to them, where `home` has their
-- states outside.
pub record IsValid (home : ℕ → Own) (s : System) : Type 0 where
  pub local : (i : ℕ) → IsLocal (home i) (s.own i)
  pub held : IsFree s ⊎ ((k : ℕ) × IsHeld home s k)

updated :
    (P : ℕ → Own → Type 0) (f : ℕ → Own) (i : ℕ) (o : Own)
    → P i o
    → ((j : ℕ) → i ≢ j → P j (f j))
    → (j : ℕ) → P j (update f i o j)
updated P f i o h k j = elim (Bool-cases (i == j)) [
  | inl e ↦ let same : i ≡ j = ground arith in rw e (subst (λ (x : ℕ). P x o) same h)
  | inr e ↦ rw e (k j (ground arith))
]

pub update-same : (f : ℕ → Own) (i : ℕ) (o : Own) → update f i o i ≡ o
update-same f i o = let e : (i == i) ≡ true = ground arith in rw e refl

pub update-other : (f : ℕ → Own) (i j : ℕ) (o : Own) → i ≢ j → update f i o j ≡ f j
update-other f i j o h = let e : (i == j) ≡ false = ground arith in rw e refl

-- The holder has the key.
pub IsHolder-key : (i : ℕ) (h : Own) (l : Lock) (p : Place) → IsHolder i h l p → l.key ≡ 1
unfolding IsHolder
IsHolder-key i h l away k = absurd k
IsHolder-key i h l (lock_tas retry) k = absurd k
IsHolder-key i h l lock_back k = absurd k
IsHolder-key i h l lock_wait k = absurd k
IsHolder-key i h l can_tas k = absurd k
IsHolder-key i h l can_back k = absurd k
IsHolder-key i h l (ilock_tas x) k = absurd k
IsHolder-key i h l (ilock_splx x) k = absurd k
IsHolder-key i h l ilock_wait k = absurd k
IsHolder-key i h l (set_sr x) k = k.0
IsHolder-key i h l (set_pc w) k = k.0
IsHolder-key i h l (set_p w) k = k.0
IsHolder-key i h l (set_isilock w) k = k.0
IsHolder-key i h l (set_cpu w) k = k.0
IsHolder-key i h l (inside w) k = k.0
IsHolder-key i h l (clear_cpu w sr) k = k
IsHolder-key i h l (clear_key w sr) k = k.0
IsHolder-key i h l (cleared w sr) k = absurd k

module _ (home : ℕ → Own) (s : System) (i : ℕ) (l : Lock) (o : Own) where
  moved : System
  moved = record { lock = l; own = update s.own i o }

  moved-IsLocal :
      IsValid home s → IsLocal (home i) o → (j : ℕ) → IsLocal (home j) (update s.own i o j)
  moved-IsLocal v a =
      updated (λ (j : ℕ) (x : Own). IsLocal (home j) x) s.own i o a (λ j h. v.local j)

  -- The lock stays free,
  to_free :
      IsValid home s
      → IsLocal (home i) o
      → l.key ≡ 0
      → l.cpu ≡ none
      → holds o.place ≡ false
      → ((j : ℕ) → i ≢ j → holds (s.own j).place ≡ false)
      → IsValid home moved
  unfolding IsFree moved
  to_free v a k c f others = record {
    local = moved-IsLocal v a;
    held = inl (k, c, updated (λ (j : ℕ) (x : Own). holds x.place ≡ false) s.own i o f others);
  }

  -- or becomes or stays that of `i`,
  to_own :
      IsValid home s
      → IsLocal (home i) o
      → IsHolder i (home i) l o.place
      → ((j : ℕ) → i ≢ j → holds (s.own j).place ≡ false)
      → IsValid home moved
  unfolding IsHeld moved
  to_own v a own others = record {
    local = moved-IsLocal v a;
    held =
        inr (
          i,
          (rw (update-same s.own i o) own, λ j h. rw (update-other s.own i j o h) (others j h)),
        );
  }

  -- or stays that of another one.
  to_other :
      (k : ℕ)
      → i ≢ k
      → IsValid home s
      → IsLocal (home i) o
      → holds o.place ≡ false
      → l ≡ s.lock
      → IsHeld home s k
      → IsValid home moved
  unfolding IsHeld moved
  to_other k ne v a f same (own, others) = record {
    local = moved-IsLocal v a;
    held = inr (
      k,
      (
        rw (update-other s.own i k o ne, same) own,
        λ j h.
            updated (λ (x : ℕ) (y : Own). k ≢ x → holds y.place ≡ false) s.own i o (λ g. f)
              (λ x g. others x) j h,
      ),
    );
  }

after-some :
    (R : Lock → Own → Type 0) (x : Option (Lock × Own)) (l : Lock) (o : Own)
    → x ≡ some (l, o)
    → After R x
    → R l o
unfolding After
after-some R x l o e a = subst (λ (y : Option (Lock × Own)). After R y) e a

move-IsValid :
    (home : ℕ → Own) (s : System) (i : ℕ) (l : Lock) (o : Own)
    → IsValid home s
    → advance i s.lock (s.own i) ≡ some (l, o)
    → IsValid home (moved home s i l o)
unfolding advance IsFree IsHeld IsLocal Tries Goes Passes Wins Leaves
move-IsValid home s i l o v e = elim v.held [
  | inl (k, c, none_holds) ↦
      elim (after-some (Tries i (home i) s.lock) (advance i s.lock (s.own i)) l o e
        (free-Tries i (home i) s.lock (s.own i) (s.own i).place k c (none_holds i) (v.local i))) [
          | inl (a, same, f) ↦
              to_free home s i l o v a (rw same k) (rw same c) f (λ j h. none_holds j)
          | inr (a, own) ↦ to_own home s i l o v a own (λ j h. none_holds j)
        ]
  | inr (k, (own, others)) ↦ elim (Bool-cases (i == k)) [
    | inl q ↦
        let same : k ≡ i = ground arith in
        let own' : IsHolder i (home i) s.lock (s.own i).place =
          subst (λ (x : ℕ). IsHolder x (home x) s.lock (s.own x).place) same own in
        let rest : (j : ℕ) → i ≢ j → holds (s.own j).place ≡ false =
          subst (λ (x : ℕ). (j : ℕ) → x ≢ j → holds (s.own j).place ≡ false) same others in
        elim (after-some (Goes i (home i)) (advance i s.lock (s.own i)) l o e
          (holder-Goes i (home i) s.lock (s.own i) (s.own i).place own' (v.local i))) [
            | inl (a, w) ↦ to_own home s i l o v a w rest
            | inr (a, z, c, f) ↦ to_free home s i l o v a z c f rest
          ]
    | inr q ↦
        let ne : i ≢ k = ground arith in
        let key = IsHolder-key k (home k) s.lock (s.own k).place own in
        let (a, same, f) = after-some (Passes (home i) s.lock) (advance i s.lock (s.own i)) l o e (
          busy-Passes i (home i) s.lock (s.own i) (s.own i).place key (others i (λ g. ne (sym g)))
            (v.local i)) in
        to_other home s i l o k ne v a f same (own, others)
  ]
]

-- A call starts from `away` with the state of outside.
enter-IsLocal :
    (h o : Own) (c : Call) (pc : ℕ)
    → o.place ≡ away
    → IsLocal h o
    → IsLocal h (enter c pc o) × (holds (enter c pc o).place ≡ false)
unfolding IsLocal IsLocalAt enter inccnt
enter-IsLocal h o c pc e a = started c (subst (λ (x : Place). IsLocalAt h o x) e a)
  where
    started :
        (d : Call)
        → IsLocalAt h o away
        → IsLocal h (enter d pc o) × (holds (enter d pc o).place ≡ false)
    started lock (n, lo, d, z) = ((omega (arith, n), lo, d, z), refl)
    started canlock (n, lo, d, z) = ((omega (arith, n), lo, d, z), refl)
    started ilock (n, lo, d, z) = ((n, refl, d, lo), refl)

call-IsValid :
    (home : ℕ → Own) (s : System) (i : ℕ) (c : Call) (pc : ℕ)
    → IsValid home s
    → (s.own i).place ≡ away
    → IsValid home (moved home s i s.lock (enter c pc (s.own i)))
unfolding IsFree IsHeld IsHolder
call-IsValid home s i c pc v e =
    let (a, f) = enter-IsLocal (home i) (s.own i) c pc e (v.local i) in
    elim v.held [
      | inl (k, cpu, none_holds) ↦
          to_free home s i s.lock (enter c pc (s.own i)) v a k cpu f (λ j h. none_holds j)
      | inr (k, (own, others)) ↦
          let ne : i ≢ k =
            λ q. holder_is_in k own (subst (λ (x : ℕ). (s.own x).place ≡ away) q e) in
          to_other home s i s.lock (enter c pc (s.own i)) k ne v a f refl (own, others)
    ]
  where
    holder_is_in : (k : ℕ) → IsHolder k (home k) s.lock (s.own k).place → (s.own k).place ≢ away
    holder_is_in k own q = subst (λ (x : Place). IsHolder k (home k) s.lock x) q own

start-IsValid : (s : System) → IsStart s → IsValid s.own s
unfolding IsStart IsFree IsLocal IsLocalAt
start-IsValid s (outside, k, c) = record {
  local = λ i. rw (outside i) (omega arith, refl, omega arith, refl);
  held = inl (k, c, λ i. rw (outside i) refl);
}

pub Reach-IsValid : (s t : System) → IsStart s → Reach s t → IsValid s.own t
unfolding moved
Reach-IsValid s t b start = start-IsValid s b
Reach-IsValid s t b (later {t = u} r (call i c pc e)) =
    call-IsValid s.own u i c pc (Reach-IsValid s u b r) e
Reach-IsValid s t b (later {t = u} r (move i {l} {o} e)) =
    move-IsValid s.own u i l o (Reach-IsValid s u b r) e
