-- ===== src/Transport/Rolling.antt =====
-- The quota budget bounds the requests of any rolling minute.
use mathlib.Core.Path.{subst}
use bot_trading.Prelude.{
  ℕ, ◌+◌, ◌≤◌, String, ◌≡◌, refl, sym, Bool, false, List, [], ◌∷◌, ◌++◌, length, ltb, leb, str_eq,
  eq_iff, ◌⊎◌, inl, inr, Bool-cases, arith,
}
use bot_trading.Prelude.TableLaws.{find_row-upsert, find_row-upsert_other}
use bot_trading.Prelude.Counting.{count, count-append}
use bot_trading.Exec.{Exn, ok, err, Result-cases}
use bot_trading.Transport.Routes.{Route}
use bot_trading.Transport.Quota.{
  Pool, QuotaBudget, minute, uses_of, set_uses, expire, admit, append_use, take,
}

-- Less than a minute ago.
abbrev pub is_live : ℕ → ℕ → Bool
is_live now t = ltb now (t + minute)

-- Budgets with the log of what they granted, and the clock: a clock that does not go back, requests
-- that are granted or refused, and pauses that the server asks for.
pub data Reach : QuotaBudget → List ℕ → ℕ → Type 0 where
  fresh : (now : ℕ) → Reach (record { pools = []; blocked_until = 0 }) [] now
  waited :
      {q : QuotaBudget} {log : List ℕ} {now : ℕ} (later : ℕ)
      → Reach q log now
      → now ≤ later
      → Reach q log later
  paused :
      {q : QuotaBudget} {log : List ℕ} {now : ℕ} (until : ℕ)
      → Reach q log now
      → Reach (record q { blocked_until = until }) log now
  granted :
      {q : QuotaBudget} {log : List ℕ} {now : ℕ} (route : Route) (priority : Bool)
      → Reach q log now
      → str_eq route.pool "_all" ≡ false
      → (take now route priority q).0 ≡ ok tt
      → Reach (take now route priority q).1 (log ++ now ∷ []) now
  refused :
      {q : QuotaBudget} {log : List ℕ} {now : ℕ} (route : Route) (priority : Bool) (e : Exn)
      → Reach q log now
      → str_eq route.pool "_all" ≡ false
      → (take now route priority q).0 ≡ err e
      → Reach (take now route priority q).1 log now

uses_of-set_uses :
    (name : String) (uses : List ℕ) (q : QuotaBudget) → uses_of name (set_uses name uses q) ≡ uses
uses_of-set_uses name uses q =
    let found =
      find_row-upsert (λ (p : Pool). str_eq p.name name) (record { name = name; uses = uses })
        q.pools ((eq_iff name name).1 refl) in
    ground arith

uses_of-set_uses_other :
    (other name : String) (uses : List ℕ) (q : QuotaBudget)
    → str_eq other name ≡ false
    → uses_of name (set_uses other uses q) ≡ uses_of name q
uses_of-set_uses_other other name uses q h =
    let kept =
      find_row-upsert_other (λ (p : Pool). str_eq p.name other) (λ (p : Pool). str_eq p.name name)
        (record { name = other; uses = uses })
        (λ p same. subst (λ n. str_eq n name ≡ false) (sym ((eq_iff p.name other).0 same)) h)
        q.pools h in
    ground arith

-- What a round of the first loop leaves of the common deque.
admit_common :
    (now : ℕ) (priority : Bool) (maximum : ℕ) (q : QuotaBudget)
    → uses_of "_all" (admit now priority "_all" maximum q).1 ≡ expire now (uses_of "_all" q)
unfolding admit
admit_common now priority maximum q =
    let set = uses_of-set_uses "_all" (expire now (uses_of "_all" q)) q in ground arith

admit_granted :
    (now : ℕ) (priority : Bool) (maximum : ℕ) (q : QuotaBudget)
    → (admit now priority "_all" maximum q).0 ≡ ok tt
    → leb maximum (length (expire now (uses_of "_all" q))) ≡ false
unfolding admit
admit_granted now priority maximum q h =
    let set = uses_of-set_uses "_all" (expire now (uses_of "_all" q)) q in ground arith

admit_other :
    (now : ℕ) (priority : Bool) (name : String) (maximum : ℕ) (q : QuotaBudget)
    → str_eq name "_all" ≡ false
    → uses_of "_all" (admit now priority name maximum q).1 ≡ uses_of "_all" q
unfolding admit
admit_other now priority name maximum q h =
    let kept = uses_of-set_uses_other name "_all" (expire now (uses_of name q)) q h in ground arith

-- A refusal drops at most what has expired.
take_refused :
    (now : ℕ) (route : Route) (priority : Bool) (q : QuotaBudget) (e : Exn)
    → str_eq route.pool "_all" ≡ false
    → (take now route priority q).0 ≡ err e
    → (uses_of "_all" (take now route priority q).1 ≡ uses_of "_all" q)
      ⊎ (uses_of "_all" (take now route priority q).1 ≡ expire now (uses_of "_all" q))
unfolding take
take_refused now route priority q e h refusal =
    let common = admit_common now priority 60 q in
    let later =
      admit_other now priority route.pool route.quota (admit now priority "_all" 60 q).1 h in
    elim (Bool-cases (ltb now q.blocked_until)) [
      | inl pending ↦ ground arith
      | inr free ↦ elim (Result-cases (admit now priority "_all" 60 q).0) [
        | inr (f, full) ↦ ground arith
        | inl (t, open_all) ↦
            elim (Result-cases
              (admit now priority route.pool route.quota (admit now priority "_all" 60 q).1).0) [
                | inr (f, full) ↦ ground arith
                | inl (u, open_pool) ↦ absurd (ground arith)
              ]
      ]
    ]

take_granted :
    (now : ℕ) (route : Route) (priority : Bool) (q : QuotaBudget)
    → str_eq route.pool "_all" ≡ false
    → (take now route priority q).0 ≡ ok tt
    → (uses_of "_all" (take now route priority q).1 ≡ expire now (uses_of "_all" q) ++ now ∷ [])
      × (leb 60 (length (expire now (uses_of "_all" q))) ≡ false)
unfolding take
take_granted now route priority q h grant =
    let first = (admit now priority "_all" 60 q).1 in
    let second = (admit now priority route.pool route.quota first).1 in
    let common = admit_common now priority 60 q in
    let under = admit_granted now priority 60 q in
    let later = admit_other now priority route.pool route.quota first h in
    let appended = uses_of-set_uses "_all" (uses_of "_all" second ++ now ∷ []) second in
    let marked = append_use now "_all" second in
    let beside =
      uses_of-set_uses_other route.pool "_all" (uses_of route.pool marked ++ now ∷ []) marked h in
    elim (Bool-cases (ltb now q.blocked_until)) [
      | inl pending ↦ absurd (ground arith)
      | inr free ↦ elim (Result-cases (admit now priority "_all" 60 q).0) [
        | inr (f, full) ↦ absurd (ground arith)
        | inl (t, open_all) ↦
            elim (Result-cases (admit now priority route.pool route.quota first).0) [
              | inr (f, full) ↦ absurd (ground arith)
              | inl (u, open_pool) ↦ (ground arith, under open_all)
            ]
      ]
    ]

expire_live :
    (now t : ℕ) (l : List ℕ) → now ≤ t → count (is_live t) (expire now l) ≡ count (is_live t) l
expire_live now t [] h = refl
expire_live now t (x ∷ l) h = ground (arith, expire_live now t l h)

length-expire : (now : ℕ) (l : List ℕ) → length (expire now l) ≤ length l
length-expire now [] = ground arith
length-expire now (x ∷ l) = ground (arith, length-expire now l)

count-length : (p : ℕ → Bool) (l : List ℕ) → count p l ≤ length l
count-length p [] = ground arith
count-length p (x ∷ l) = ground (arith, count-length p l)

length_snoc : (l : List ℕ) (x : ℕ) → length (l ++ x ∷ []) ≡ length l + 1
length_snoc [] x = refl
length_snoc (y ∷ l) x = ground (arith, length_snoc l x)

-- The common deque has every live grant of the log, and never more than sixty.
abbrev Tracks : QuotaBudget → List ℕ → ℕ → Type 0
Tracks q log now =
    ((t : ℕ) → now ≤ t → count (is_live t) (uses_of "_all" q) ≡ count (is_live t) log)
    × (length (uses_of "_all" q) ≤ 60)

Reach-Tracks : {q : QuotaBudget} {log : List ℕ} {now : ℕ} → Reach q log now → Tracks q log now
Reach-Tracks (fresh now) = (λ t h. refl, ground arith)
Reach-Tracks (waited {q} {log} {now} later chain passed) =
    let (same, few) = Reach-Tracks chain in (λ t h. same t (omega arith), few)
Reach-Tracks (paused {q} {log} {now} until chain) = Reach-Tracks chain
Reach-Tracks (granted {q} {log} {now} route priority chain named grant) =
    let (same, few) = Reach-Tracks chain in
    let (after, under) = take_granted now route priority q named grant in
    (
      λ t h. ground (
        arith,
        same t h,
        expire_live now t (uses_of "_all" q) h,
        count-append (is_live t) (expire now (uses_of "_all" q)) (now ∷ []),
        count-append (is_live t) log (now ∷ []),
      ),
      ground (arith, length_snoc (expire now (uses_of "_all" q)) now),
    )
Reach-Tracks (refused {q} {log} {now} route priority e chain named refusal) =
    let (same, few) = Reach-Tracks chain in
    elim (take_refused now route priority q e named refusal) [
      | inl kept ↦ (λ t h. ground (arith, same t h), ground arith)
      | inr dropped ↦ (
        λ t h. ground (arith, same t h, expire_live now t (uses_of "_all" q) h),
        ground (arith, length-expire now (uses_of "_all" q)),
      )
    ]

-- Whatever is requested, paused and waited for, with a clock that does not go back: of all the
-- requests that the budget granted, at most sixty are less than a minute old at any time.
pub Reach-within_quota :
    (q : QuotaBudget) (log : List ℕ) (now : ℕ) → Reach q log now → count (is_live now) log ≤ 60
Reach-within_quota q log now chain =
    let (same, few) = Reach-Tracks chain in
    ground (arith, same now (omega arith), count-length (is_live now) (uses_of "_all" q))
