-- ===== src/Providers.antt =====
-- browserpm.go: the providers made of functions, and the driver that calls them. The options of a browser
-- context are of a type `Options` that is a parameter.
use browserpm.Common.{ℕ, ◌≡◌, refl, Bool, true, Option, none, some}
use browserpm.Errors.{Error, ok}
use browserpm.Driver.{Driver, Trace, CallContext}
use browserpm.Session.Serving.{IsServing}

-- A function that is nil is `none`.
pub record FuncContextProvider (Options : Type 0) : Type 0 where
  pub opts : Options
  pub setup : Option (CallContext → ℕ → Trace → Option Error)

pub record FuncPageProvider : Type 0 where
  pub init_fn : Option (CallContext → ℕ → Trace → Option Error)
  pub check_fn : Option (CallContext → ℕ → Trace → Bool)

module _ {Options : Type 0} where
  -- NewContextProvider, SimpleContextProvider and Options.
  abbrev pub new_context_provider :
      Options → Option (CallContext → ℕ → Trace → Option Error) → FuncContextProvider Options
  new_context_provider opts setup = record { opts = opts; setup = setup }

  abbrev pub simple_context_provider : Options → FuncContextProvider Options
  simple_context_provider opts = record { opts = opts; setup = none }

  abbrev pub options : FuncContextProvider Options → Options
  options p = p.opts

  -- Setup.
  unfoldable pub run_setup : FuncContextProvider Options → CallContext → ℕ → Trace → Option Error
  run_setup p x c t = elim p.setup [ some f ↦ f x c t | none ↦ none ]

-- NewPageProvider.
abbrev pub new_page_provider :
    Option (CallContext → ℕ → Trace → Option Error)
    → Option (CallContext → ℕ → Trace → Bool)
    → FuncPageProvider
new_page_provider init_fn check_fn = record { init_fn = init_fn; check_fn = check_fn }

-- Init and Check.
unfoldable pub run_init : FuncPageProvider → CallContext → ℕ → Trace → Option Error
run_init p x h t = elim p.init_fn [ some f ↦ f x h t | none ↦ none ]

unfoldable pub run_check : FuncPageProvider → CallContext → ℕ → Trace → Bool
run_check p x h t = elim p.check_fn [ some f ↦ f x h t | none ↦ true ]

-- The driver of a session with such providers.
unfoldable pub with_providers :
    {Options : Type 0} → FuncContextProvider Options → FuncPageProvider → Driver → Driver
with_providers cp pp d = record d {
  set_up = run_setup cp;
  init_page = run_init pp;
  check_page = run_check pp;
}

-- With providers that have no functions a browser that opens every page and every context is in good
-- order: Do succeeds on it, and recovers from lost connections.
pub with_providers-IsServing :
    {Options : Type 0} (opts : Options) (d : Driver)
    → ((c : ℕ) (t : Trace) → (p : ℕ) × (d.new_page c t ≡ ok p))
    → ((t : Trace) → (c : ℕ) × (d.new_context t ≡ ok c))
    → IsServing (with_providers (simple_context_provider opts) (new_page_provider none none) d)
unfolding with_providers run_setup run_init
with_providers-IsServing opts d pages contexts = record {
  serves = record { opens = pages; inits = λ x p t. refl };
  opens_context = contexts;
  sets_up = λ x c t. refl;
}
