-- ===== src/Phone/PhoneImpl/Live.antt =====
-- The lists of calls of phone_impl.cc, over any history of the phone and its calls.
use sippet.Base.{
  ℕ, zero, suc, ◌+◌, arith, length, length-append, ◌≡◌, refl, Bool, true, false, ◌&&◌, not, List,
  [], ◌∷◌, ◌++◌, All, Option, none, some, Bool-cases, inl, inr, if◌then◌else◌,
}
use sippet.Phone.Call.{Call, was_removed, is_terminated}
use sippet.Phone.Call.Order.{Fine, Holds}
use sippet.Phone.PhoneImpl.{
  Phone, Output, posted, make_call_task, call_announced, emit, run_callback,
}
use sippet.Phone.PhoneImpl.Calls.{keep, put_back, routed, with_calls}

-- A call of the list: the phone was not told to drop it.
pub record IsOpen (c : Call) : Type 0 where
  pub fine : Fine 0 c
  pub kept : was_removed c.log ≡ false

-- A call that was dropped has ended.
pub record IsEnded (c : Call) : Type 0 where
  pub dropped : was_removed c.log ≡ true
  pub over : is_terminated c.state ≡ true

-- Whether an output tells of a new call: MakeCall posts its task, and a call that comes in is
-- announced to the delegate.
abbrev pub calls_in : Output → ℕ
calls_in (posted make_call_task) = 1
calls_in (call_announced r) = 1
calls_in _ = 0

-- The calls that a log tells of.
unfoldable pub calls_told : List Output → ℕ
calls_told [] = 0
calls_told (o ∷ os) = calls_in o + calls_told os

-- The calls of the list are open, those that were dropped have ended, and every call that was made or
-- announced is in the list, was dropped, or was let go with the phone: none is lost or kept twice.
abbrev pub IsLive : Phone → Type 0
IsLive p =
    All IsOpen p.calls
    × All IsEnded p.ended
    × (length p.calls + length p.ended + length p.closed ≡ calls_told p.log)

pub calls_told-snoc :
    (os : List Output) (o : Output) → calls_told (os ++ o ∷ []) ≡ calls_told os + calls_in o
unfolding calls_told
calls_told-snoc [] o = omega arith
calls_told-snoc (x ∷ os) o = let h = calls_told-snoc os o in omega arith

-- An output that tells of no call.
pub emit-Live : (o : Output) (p : Phone) → calls_in o ≡ 0 → IsLive p → IsLive (emit o p)
emit-Live o p e (h, g, n) = (h, g, (let k = calls_told-snoc p.log o in omega arith))

-- An event of one call, by its place in the list.
unfoldable pub nth_handled : ℕ → (Call → Option Call) → List Call → Option (List Call × List Call)
nth_handled n handler [] = some ([], [])
nth_handled zero handler (c ∷ calls) = elim (handler c) [
  | none ↦ none
  | some c' ↦ some (put_back c' calls)
]
nth_handled (suc n) handler (c ∷ calls) =
    let rest = nth_handled n handler calls in elim rest [ none ↦ none | some r ↦ some (keep c r) ]

-- What is left of `n` calls.
pub AreLive : ℕ → List Call × List Call → Type 0
AreLive n (calls, ended) = All IsOpen calls × All IsEnded ended × (length calls + length ended ≡ n)

pub AreLiveResult : ℕ → Option (List Call × List Call) → Type 0
unfolding AreLive
AreLiveResult n none = Unit
AreLiveResult n (some r) = AreLive n r

over_of : (a b : Bool) → a && not b ≡ false → a ≡ true → b ≡ true
over_of true true h e = refl
over_of true false h e = absurd (cc h)
over_of false b h e = absurd (cc e)

put_back-Live :
    (c : Call) (calls : List Call)
    → Fine 0 c
    → All IsOpen calls
    → AreLive (suc (length calls)) (put_back c calls)
unfolding AreLive
put_back-Live c calls f l = elim (Bool-cases (was_removed c.log)) [
  | inl t ↦ rw t (
    l,
    (
      record {
        dropped = t;
        over = over_of (was_removed c.log) (is_terminated c.state) f.dropped t;
      },
      tt,
    ),
    omega arith,
  )
  | inr e ↦ rw e ((record { fine = f; kept = e }, l), tt, omega arith)
]

handled-Live :
    (o : Option Call) (calls : List Call)
    → Holds (Fine 0) o
    → All IsOpen calls
    → AreLiveResult (suc (length calls)) (elim o [ none ↦ none | some c ↦ some (put_back c calls) ])
unfolding Holds AreLiveResult
handled-Live none calls h l = tt
handled-Live (some c) calls h l = put_back-Live c calls h l

kept-Live :
    (c : Call) (o : Option (List Call × List Call)) (n : ℕ)
    → IsOpen c
    → AreLiveResult n o
    → AreLiveResult (suc n) (elim o [ none ↦ none | some r ↦ some (keep c r) ])
unfolding AreLiveResult AreLive
kept-Live c none n h l = tt
kept-Live c (some (calls, ended)) n h (l, k, e) = ((h, l), k, omega arith)

pub routed-Live :
    (test : Call → Option Bool) (handler : Call → Option Call) (calls : List Call)
    → ((c : Call) → Fine 0 c → Holds (Fine 0) (handler c))
    → All IsOpen calls
    → AreLiveResult (length calls) (routed test handler calls)
unfolding routed AreLiveResult AreLive
routed-Live test handler [] f l = (tt, tt, refl)
routed-Live test handler (c ∷ calls) f (h, l) = go (routed-Live test handler calls f l) (test c)
  where
    go :
        AreLiveResult (length calls) (routed test handler calls)
        → (o : Option Bool)
        → AreLiveResult (suc (length calls)) (elim o [
          | none ↦ none
          | some hit ↦
              if hit
              then elim (handler c) [ none ↦ none | some c' ↦ some (put_back c' calls) ]
              else elim (routed test handler calls) [ none ↦ none | some r ↦ some (keep c r) ]
        ])
    go k none = tt
    go k (some true) = handled-Live (handler c) calls (f c h.fine) l
    go k (some false) = kept-Live c (routed test handler calls) (length calls) h k

pub nth_handled-Live :
    (n : ℕ) (handler : Call → Option Call) (calls : List Call)
    → ((c : Call) → Fine 0 c → Holds (Fine 0) (handler c))
    → All IsOpen calls
    → AreLiveResult (length calls) (nth_handled n handler calls)
unfolding nth_handled AreLiveResult AreLive
nth_handled-Live n handler [] f l = (tt, tt, refl)
nth_handled-Live zero handler (c ∷ calls) f (h, l) = handled-Live (handler c) calls (f c h.fine) l
nth_handled-Live (suc n) handler (c ∷ calls) f (h, l) =
    kept-Live c (nth_handled n handler calls) (length calls) h
      (nth_handled-Live n handler calls f l)

unfoldable pub LiveResult : Option Phone → Type 0
LiveResult none = Unit
LiveResult (some p) = IsLive p

pub All-append :
    {A : Type 0} (P : A → Type 0) (xs ys : List A) → All P xs → All P ys → All P (xs ++ ys)
All-append P [] ys h k = k
All-append P (x ∷ xs) ys (p, h) k = (p, All-append P xs ys h k)

pub with_calls-Live :
    (o : Option (List Call × List Call)) (p : Phone)
    → AreLiveResult (length p.calls) o
    → IsLive p
    → LiveResult (with_calls o p)
unfolding AreLiveResult AreLive LiveResult
with_calls-Live none p a h = tt
with_calls-Live (some (calls, ended)) p (l, k, n) (h, g, m) =
    (l, All-append IsEnded p.ended ended g k, let e = length-append p.ended ended in omega arith)

pub if_Live :
    (b : Bool) (o u : Option Phone) → LiveResult o → LiveResult u → LiveResult (if b then o else u)
if_Live true o u h k = h
if_Live false o u h k = k

pub elim_Live :
    {A : Type 0} (a : Option A) (k : A → Option Phone)
    → ((x : A) → LiveResult (k x))
    → LiveResult (elim a [ none ↦ none | some x ↦ k x ])
unfolding LiveResult
elim_Live none k h = tt
elim_Live (some x) k h = h x

pub some_Live : (p : Phone) → IsLive p → LiveResult (some p)
unfolding LiveResult
some_Live p h = h

pub run_callback-Live :
    (b : Bool) (o : Output) (p : Phone)
    → calls_in o ≡ 0
    → IsLive p
    → LiveResult (run_callback b o p)
unfolding LiveResult
run_callback-Live true o p e h = emit-Live o p e h
run_callback-Live false o p e h = tt
