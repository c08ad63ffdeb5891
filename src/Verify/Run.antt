-- ===== src/Verify/Run.antt =====
-- The order of `VerifierChain::run` in src/verify.rs.
use stophammer.Common.{◌≡◌, refl, ap, List, [], ◌∷◌, ◌++◌, All}
use stophammer.Verify.Request.{
  IngestContext, VerifyResult, pass, warn, fail, Labelled, RunResult, ok, err,
}
use stophammer.Verify.Chain.{Verifier, run, step}

-- What one check adds to the warnings.
abbrev pub warning_of : Verifier → VerifyResult → List Labelled
warning_of v pass = []
warning_of v (warn msg) = record { name = v.name; message = msg } ∷ []
warning_of v (fail msg) = []

abbrev pub warnings_of : List Verifier → IngestContext → List Labelled
warnings_of [] ctx = []
warnings_of (v ∷ rest) ctx = warning_of v (v.verify ctx) ++ warnings_of rest ctx

abbrev pub IsNoFail : VerifyResult → Type 0
IsNoFail pass = Unit
IsNoFail (warn msg) = Unit
IsNoFail (fail msg) = ⊥

-- The chain splits at a check that fails with `e`, and no earlier check fails.
pub record FailsAt (vs : List Verifier) (ctx : IngestContext) (e : Labelled) : Type 0 where
  pub before : List Verifier
  pub failing : Verifier
  pub after : List Verifier
  pub splits : vs ≡ before ++ (failing ∷ after)
  pub none_before : All (λ v. IsNoFail (v.verify ctx)) before
  pub fails : failing.verify ctx ≡ fail e.message
  pub named : failing.name ≡ e.name

-- What a result of a run states of the chain.
abbrev pub Decides : List Verifier → IngestContext → RunResult → Type 0
Decides vs ctx (ok warnings) =
    All (λ v. IsNoFail (v.verify ctx)) vs × (warnings ≡ warnings_of vs ctx)
Decides vs ctx (err e) = FailsAt vs ctx e

FailsAt-cons :
    (v : Verifier) {vs : List Verifier} {ctx : IngestContext} {e : Labelled}
    → IsNoFail (v.verify ctx)
    → FailsAt vs ctx e
    → FailsAt (v ∷ vs) ctx e
FailsAt-cons v h f = record {
  before = v ∷ f.before;
  failing = f.failing;
  after = f.after;
  splits = ap (λ l. v ∷ l) f.splits;
  none_before = (h, f.none_before);
  fails = f.fails;
  named = f.named;
}

step-Decides :
    (v : Verifier) (vs : List Verifier) (ctx : IngestContext) (r : VerifyResult) (later : RunResult)
    → v.verify ctx ≡ r
    → Decides vs ctx later
    → Decides (v ∷ vs) ctx (step v r later)
step-Decides v vs ctx pass (ok ws) e (clean, same) = (rw e (tt, clean), rw e same)
step-Decides v vs ctx pass (err x) e f = FailsAt-cons v (rw e tt) f
step-Decides v vs ctx (warn msg) (ok ws) e (clean, same) = (rw e (tt, clean), rw (e, same) refl)
step-Decides v vs ctx (warn msg) (err x) e f = FailsAt-cons v (rw e tt) f
step-Decides v vs ctx (fail msg) later e d = record {
  before = [];
  failing = v;
  after = vs;
  splits = refl;
  none_before = tt;
  fails = e;
  named = refl;
}

-- A run that succeeds has no check that fails, and its warnings are those of all the checks, in the
-- order of the chain, each with the name of its check. A run that is rejected has the name and the
-- message of a check that fails, with no failing check before it.
pub run-Decides : (vs : List Verifier) (ctx : IngestContext) → Decides vs ctx (run vs ctx)
unfolding run
run-Decides [] ctx = (tt, refl)
run-Decides (v ∷ rest) ctx =
    step-Decides v rest ctx (v.verify ctx) (run rest ctx) refl (run-Decides rest ctx)
