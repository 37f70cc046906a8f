-- ===== src/Session/Replay/Once.antt =====
-- What the receivers rely on, of the replay window of internal/session/replay.go.
use wg.Prelude.{
  ℕ, ◌≡◌, ◌≢◌, refl, ◌∙◌, ap, List, [], ◌∷◌, true, false, Option, none, some, arith, ◌↔◌,
  Option-cases, inl, inr, sym,
}
use wg.Session.Replay.{
  replay_too_old, ReplayError, ReplayWindow, zero_window, accept_authenticated, precheck,
}
use wg.Session.Replay.History.{member, judge, remember, Refines, member-le-top}
use wg.Session.Replay.Window.{zero_window-Refines, accept_authenticated-Refines}

abbrev keep_if : Option ReplayError → ℕ → List ℕ → List ℕ
keep_if none pn rest = pn ∷ rest
keep_if (some e) pn rest = rest

-- The numbers that a window accepts, when it is asked for each of a list in turn.
unfoldable pub accepted : ReplayWindow → List ℕ → List ℕ
accepted w [] = []
accepted w (pn ∷ pns) =
    keep_if (accept_authenticated w pn).1 pn (accepted (accept_authenticated w pn).0 pns)

abbrev pub Distinct : List ℕ → Type 0
Distinct [] = Unit {0}
Distinct (x ∷ xs) = (member x xs ≡ false) × Distinct xs

-- A number that is admitted was not in the history, and one that was in it stays.
judge_new : (h : List ℕ) (pn : ℕ) → judge h pn ≡ none → member pn h ≡ false
unfolding judge
judge_new [] pn e = unfold member in refl
judge_new (x ∷ h) pn e = ground (arith, member-le-top pn (x ∷ h))

remember_keeps : (h : List ℕ) (pn x : ℕ) → member x h ≡ true → member x (remember h pn) ≡ true
unfolding remember member
remember_keeps h pn x m = elim (Option-cases (judge h pn)) [
  | inl e ↦ rw e (ground arith)
  | inr (a, e) ↦ rw e m
]

remember_new : (h : List ℕ) (pn : ℕ) → judge h pn ≡ none → member pn (remember h pn) ≡ true
unfolding remember member
remember_new h pn e = rw e (ground arith)

member-keep_if :
    (o : Option ReplayError) (x pn : ℕ) (rest : List ℕ)
    → (o ≡ none → x ≢ pn)
    → member x rest ≡ false
    → member x (keep_if o pn rest) ≡ false
unfolding member
member-keep_if none x pn rest ne m = let d : x ≢ pn = ne refl in ground arith
member-keep_if (some e) x pn rest ne m = m

Distinct-keep_if :
    (o : Option ReplayError) (pn : ℕ) (rest : List ℕ)
    → (o ≡ none → member pn rest ≡ false)
    → Distinct rest
    → Distinct (keep_if o pn rest)
Distinct-keep_if none pn rest new d = (new refl, d)
Distinct-keep_if (some e) pn rest new d = d

-- A number of the history is not accepted again.
accepted_fresh :
    (h : List ℕ) (w : ReplayWindow) (pns : List ℕ) (x : ℕ)
    → Refines h w
    → member x h ≡ true
    → member x (accepted w pns) ≡ false
unfolding accepted
accepted_fresh h w [] x r m = unfold member in refl
accepted_fresh h w (pn ∷ pns) x r m =
    let (r', e) = accept_authenticated-Refines h w pn r in
    member-keep_if (accept_authenticated w pn).1 x pn (accepted (accept_authenticated w pn).0 pns)
      (λ o same. cc (m, judge_new h pn (sym e ∙ o), ap (λ (y : ℕ). member y h) same))
      (accepted_fresh (remember h pn) (accept_authenticated w pn).0 pns x r'
        (remember_keeps h pn x m))

pub accepted-Distinct :
    (h : List ℕ) (w : ReplayWindow) (pns : List ℕ) → Refines h w → Distinct (accepted w pns)
unfolding accepted
accepted-Distinct h w [] r = tt
accepted-Distinct h w (pn ∷ pns) r =
    let (r', e) = accept_authenticated-Refines h w pn r in
    Distinct-keep_if (accept_authenticated w pn).1 pn (accepted (accept_authenticated w pn).0 pns)
      (λ o.
        accepted_fresh (remember h pn) (accept_authenticated w pn).0 pns pn r'
          (remember_new h pn (sym e ∙ o)))
      (accepted-Distinct (remember h pn) (accept_authenticated w pn).0 pns r')

-- Whatever packet numbers arrive at a new window, in whatever order and however often repeated, no
-- number is accepted twice.
pub accepted_once : (pns : List ℕ) → Distinct (accepted zero_window pns)
accepted_once pns = accepted-Distinct [] zero_window pns zero_window-Refines

-- The check before authentication refuses a number exactly when the window, asked after
-- authentication, would refuse it as too old.
pub precheck-accept_authenticated :
    (w : ReplayWindow) (pn : ℕ)
    → (precheck w pn ≡ false) ↔ (
        (accept_authenticated w pn).1
        ≡ some (record { kind = replay_too_old; packet_number = pn; highest = w.highest }))
unfolding precheck accept_authenticated
precheck-accept_authenticated w pn = (λ e. ground arith, λ e. ground arith)
