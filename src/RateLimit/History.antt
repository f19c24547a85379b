-- ===== src/RateLimit/History.antt =====
-- The limiter of server/app/rate_limit.py beside the full history of one origin's accepted attempts.
use android_streamdeck.Base.{
  ℕ, ◌≤◌, ◌≡◌, refl, sym, Bool, true, false, not, ◌&&◌, ◌||◌, ◌∙◌, ap, List, [], ◌∷◌, ◌++◌, arith,
  length, ltb, length-keep, keep, All, keep-keep, keep-append, is_none, if◌then◌else◌, ◌==◌,
}
use android_streamdeck.Base.Dict.{lookup, insert, erase, HasKeys, lookup-insert, lookup-erase}
use android_streamdeck.RateLimit.{
  Limits, Attempts, last_or, is_stale, is_recent, purge, attempts_of, record_attempt, allow, reset,
}
use android_streamdeck.RateLimit.Bounds.{
  Ascends, AllKept, IsBounded, IsBounded-later, AllKept-lookup, lookup-purge_none, purge-IsBounded,
  allow-IsBounded, reset-IsBounded,
}

last_or-le : (t : ℕ) (ts : List ℕ) → All (λ u. t ≤ u) ts → t ≤ last_or t ts
last_or-le t [] h = omega arith
last_or-le t (u ∷ []) h = h.0
last_or-le t (u ∷ v ∷ ts) h = last_or-le t (v ∷ ts) (h.1.0, h.1.1)

-- What the purge drops has no recent time.
stale_forgets :
    (w now : ℕ) (ts : List ℕ)
    → Ascends now ts
    → is_stale w now ts ≡ true
    → keep (is_recent w now) ts ≡ []
stale_forgets w now [] a h = refl
stale_forgets w now (t ∷ []) a h = ground arith
stale_forgets w now (t ∷ u ∷ ts) a h =
    ground (arith, stale_forgets w now (u ∷ ts) a.2, last_or-le t (u ∷ ts) a.1)

recent_attempts-purge :
    (c : Limits) (now k : ℕ) (d : Attempts)
    → HasKeys d
    → AllKept c now d
    → keep (is_recent c.window now) (attempts_of k (purge c.window now d))
      ≡ keep (is_recent c.window now) (attempts_of k d)
unfolding lookup purge
recent_attempts-purge c now k [] h a = refl
recent_attempts-purge c now k ((j, ts) ∷ d) h a = ground (
  arith,
  recent_attempts-purge c now k d h.1 a.1,
  stale_forgets c.window now ts a.0.1,
  lookup-purge_none c.window now j d h.0,
)

is_recent-earlier : (w s t x : ℕ) → s ≤ t → is_recent w t x ≡ true → is_recent w s x ≡ true
is_recent-earlier w s t x h r = ground arith

-- Two lists with the same recent part now have the same recent part later.
same_later :
    (w s t : ℕ) (xs ys : List ℕ)
    → s ≤ t
    → keep (is_recent w s) xs ≡ keep (is_recent w s) ys
    → keep (is_recent w t) xs ≡ keep (is_recent w t) ys
same_later w s t xs ys h e =
    let p = is_recent w s in
    let q = is_recent w t in
    let imp = λ (x : ℕ). is_recent-earlier w s t x h in
    sym (keep-keep p q xs imp) ∙ ap (keep q) e ∙ keep-keep p q ys imp

pub data Call : Type 0 where
  attempt : ℕ → ℕ → Call
  forget : ℕ → Call

-- The limiter's state with the history of the key `k`: the times of its accepted attempts since
-- its last `reset`.
abbrev pub Observed : Type 0
Observed = Attempts × List ℕ

-- `attempt key now` is `allow(key)` at `now`, `forget key` is `reset(key)`.
unfoldable pub observe : Limits → ℕ → Call → Observed → Observed
observe c k (attempt key now) (d, log) =
    let (accepted, d') = allow c now key d in
    (d', if accepted && key == k then log ++ now ∷ [] else log)
observe c k (forget key) (d, log) = (reset key d, if key == k then [] else log)

unfoldable pub observe_all : Limits → ℕ → List Call → Observed → Observed
observe_all c k [] o = o
observe_all c k (call ∷ calls) o = observe_all c k calls (observe c k call o)

-- The clock, at `start` first and at `now` last, never goes back.
abbrev pub InOrder : ℕ → List Call → ℕ → Type 0
InOrder start [] now = start ≤ now
InOrder start (attempt key t ∷ calls) now = (start ≤ t) × InOrder t calls now
InOrder start (forget key ∷ calls) now = InOrder start calls now

-- The stored times of `k` and its history have the same recent part, now and at any later time.
pub record Agrees (c : Limits) (k now : ℕ) (o : Observed) : Type 0 where
  pub bounded : IsBounded c now o.0
  pub same : keep (is_recent c.window now) (attempts_of k o.0) ≡ keep (is_recent c.window now) o.1

Agrees-later : (c : Limits) (k s t : ℕ) (o : Observed) → s ≤ t → Agrees c k s o → Agrees c k t o
Agrees-later c k s t o h a = record {
  bounded = IsBounded-later o.0 h a.bounded;
  same = same_later c.window s t (attempts_of k o.0) o.1 h a.same;
}

attempts_of-insert :
    (k j : ℕ) (ts : List ℕ) (d : Attempts)
    → attempts_of j (insert k ts d) ≡ (if j == k then ts else attempts_of j d)
attempts_of-insert k j ts d = ground (arith, lookup-insert k j ts d)

-- The recent part after a call with a place for its origin.
record_attempt-recent :
    (c : Limits) (k now key : ℕ) (d : Attempts) (log : List ℕ)
    → (let p = is_recent c.window now in keep p (attempts_of k d) ≡ keep p log)
    → (let p = is_recent c.window now in
        let r = record_attempt c now key (keep p (attempts_of key d)) d in
        keep p (attempts_of k r.1) ≡ keep p (if r.0 && key == k then log ++ now ∷ [] else log))
unfolding record_attempt
record_attempt-recent c k now key d log e =
    let p = is_recent c.window now in
    let ts = attempts_of key d in
    let recent = keep p ts in
    ground (
      arith,
      e,
      attempts_of-insert key k recent d,
      attempts_of-insert key k (recent ++ now ∷ []) d,
      keep-append p recent (now ∷ []),
      keep-append p log (now ∷ []),
      keep-keep p p ts (λ x h. h),
    )

allow-recent :
    (c : Limits) (k now key : ℕ) (d : Attempts) (log : List ℕ)
    → Agrees c k now (d, log)
    → (let p = is_recent c.window now in
        let r = allow c now key d in
        keep p (attempts_of k r.1) ≡ keep p (if r.0 && key == k then log ++ now ∷ [] else log))
unfolding allow
allow-recent c k now key d log a =
    let live = purge c.window now d in
    let e = recent_attempts-purge c now k d a.bounded.keys a.bounded.kept ∙ a.same in
    ground (arith, e, record_attempt-recent c k now key live log e)

attempts_of-erase :
    (k j : ℕ) (d : Attempts)
    → HasKeys d
    → attempts_of j (erase k d) ≡ (if j == k then [] else attempts_of j d)
attempts_of-erase k j d h = ground (arith, lookup-erase k j d h)

observe-Agrees :
    (c : Limits) (k start now : ℕ) (call : Call) (o : Observed)
    → Agrees c k start o
    → InOrder start (call ∷ []) now
    → Agrees c k now (observe c k call o)
unfolding observe
observe-Agrees c k start now (attempt key t) (d, log) a h =
    let a' = Agrees-later c k start t (d, log) h.0 a in
    Agrees-later c k t now (observe c k (attempt key t) (d, log)) h.1 (record {
      bounded = allow-IsBounded c t key d a'.bounded;
      same = allow-recent c k t key d log a';
    })
observe-Agrees c k start now (forget key) (d, log) a h =
    let a' = Agrees-later c k start now (d, log) h a in
    record {
      bounded = reset-IsBounded c now key d a'.bounded;
      same = unfold reset in ground (arith, a'.same, attempts_of-erase key k d a'.bounded.keys);
    }

observe_all-Agrees :
    (c : Limits) (k start now : ℕ) (calls : List Call) (o : Observed)
    → Agrees c k start o
    → InOrder start calls now
    → Agrees c k now (observe_all c k calls o)
unfolding observe_all
observe_all-Agrees c k start now [] o a h = Agrees-later c k start now o h a
observe_all-Agrees c k start now (attempt key t ∷ calls) o a h =
    observe_all-Agrees c k t now calls (observe c k (attempt key t) o)
      (observe-Agrees c k start t (attempt key t) o a (h.0, omega arith)) h.1
observe_all-Agrees c k start now (forget key ∷ calls) o a h =
    observe_all-Agrees c k start now calls (observe c k (forget key) o)
      (observe-Agrees c k start start (forget key) o a (omega arith)) h

-- The limiter before its first call.
abbrev pub unused : Observed
unused = ([], [])

unused-Agrees : (c : Limits) (k now : ℕ) → Agrees c k now unused
unfolding lookup
unused-Agrees c k now = record {
  bounded = record { keys = tt; origins = omega arith; kept = tt };
  same = refl;
}

-- The number of attempts of one origin that were accepted since its last reset and lie less than
-- `window` before `now` is at most `max_attempts`, whatever calls were made from the start,
-- provided that the clock does not go back.
pub accepted_in_window :
    (c : Limits) (k now : ℕ) (calls : List Call)
    → InOrder 0 calls now
    → length (keep (is_recent c.window now) (observe_all c k calls unused).1) ≤ c.max_attempts
accepted_in_window c k now calls h =
    let o = observe_all c k calls unused in
    let a = observe_all-Agrees c k 0 now calls unused (unused-Agrees c k 0) h in
    let kept = AllKept-lookup c now k o.0 a.bounded.kept in
    omega (
      arith,
      ap (length {A = ℕ}) a.same,
      length-keep (is_recent c.window now) (attempts_of k o.0),
      kept.0,
    )

-- What the purge leaves has a recent time.
fresh_recent :
    (w now : ℕ) (ts : List ℕ)
    → is_stale w now ts ≡ false
    → ltb 0 (length (keep (is_recent w now) ts)) ≡ true
fresh_recent w now [] h = absurd (cc)
fresh_recent w now (t ∷ []) h = ground arith
fresh_recent w now (t ∷ u ∷ ts) h = ground (arith, fresh_recent w now (u ∷ ts))

stored_recent :
    (w now j : ℕ) (d : Attempts)
    → not (is_none (lookup j (purge w now d)))
      ≡ ltb 0 (length (keep (is_recent w now) (attempts_of j (purge w now d))))
unfolding purge lookup
stored_recent w now j [] = refl
stored_recent w now j ((k, ts) ∷ d) = ground (arith, stored_recent w now j d, fresh_recent w now ts)

-- The limiter's state does not depend on the origin whose history is kept.
same_state :
    (c : Limits) (j k : ℕ) (calls : List Call) (d : Attempts) (log log' : List ℕ)
    → (observe_all c j calls (d, log)).0 ≡ (observe_all c k calls (d, log')).0
unfolding observe_all observe
same_state c j k [] d log log' = refl
same_state c j k (attempt key now ∷ calls) d log log' =
    same_state c j k calls (allow c now key d).1 _ _
same_state c j k (forget key ∷ calls) d log log' = same_state c j k calls (reset key d) _ _

-- Whether the origin has an attempt in its history that is recent.
abbrev pub has_recent : Limits → ℕ → List Call → ℕ → Bool
has_recent c now calls j =
    ltb 0 (length (keep (is_recent c.window now) (observe_all c j calls unused).1))

has_recent-stored :
    (c : Limits) (k now : ℕ) (calls : List Call)
    → InOrder 0 calls now
    → (j : ℕ)
    → not (is_none (lookup j (purge c.window now (observe_all c k calls unused).0)))
      ≡ has_recent c now calls j
has_recent-stored c k now calls h j =
    let o = observe_all c j calls unused in
    let a = observe_all-Agrees c j 0 now calls unused (unused-Agrees c j 0) h in
    let live = purge c.window now o.0 in
    ap (λ (d : Attempts). not (is_none (lookup j (purge c.window now d))))
      (same_state c k j calls [] [] [])
    ∙ stored_recent c.window now j o.0
    ∙ ap (λ (ts : List ℕ). ltb 0 (length ts))
        (recent_attempts-purge c now j o.0 a.bounded.keys a.bounded.kept ∙ a.same)

-- After any calls in clock order, let `live` be the origins that the next attempt finds stored. They are
-- exactly the origins with a recent attempt in their history, each once. An attempt of `k` is accepted
-- exactly when fewer than `max_attempts` attempts of its history are recent and it has a place: it is one
-- of `live`, or they are fewer than `max_origins`.
pub allow_decides :
    (c : Limits) (k now : ℕ) (calls : List Call)
    → InOrder 0 calls now
    → (let o = observe_all c k calls unused in
        let live = purge c.window now o.0 in
        ((allow c now k o.0).0
          ≡ (has_recent c now calls k || ltb (length live) c.max_origins)
            && ltb (length (keep (is_recent c.window now) o.1)) c.max_attempts)
        × ((j : ℕ) → not (is_none (lookup j live)) ≡ has_recent c now calls j)
        × HasKeys live)
unfolding allow record_attempt
allow_decides c k now calls h =
    let o = observe_all c k calls unused in
    let a = observe_all-Agrees c k 0 now calls unused (unused-Agrees c k 0) h in
    let recent = has_recent-stored c k now calls h in
    (
      ground (
        arith,
        recent_attempts-purge c now k o.0 a.bounded.keys a.bounded.kept,
        a.same,
        recent k,
      ),
      recent,
      (purge-IsBounded c now o.0 a.bounded).keys,
    )

-- After any calls in clock order the stored attempts are bounded, at most `max_origins` origins
-- with at most `max_attempts` times each, no origin is stored twice, and the times of each do not
-- decrease.
pub observe_all-IsBounded :
    (c : Limits) (k now : ℕ) (calls : List Call)
    → InOrder 0 calls now
    → IsBounded c now (observe_all c k calls unused).0
observe_all-IsBounded c k now calls h =
    (observe_all-Agrees c k 0 now calls unused (unused-Agrees c k 0) h).bounded
