-- ===== src/Host/Access.antt =====
-- src/host.rs: a request reaches the host only with the capabilities that it requires, and a
-- command name resolves to one command.
use vim_script.Prelude.{
  ◌≡◌, inl, inr, refl, ◌∙◌, sym, ap, subst, true, none, some, List, [], ◌∷◌, Text, length, lookup,
  is_some, arith, Option-cases, Bool-cases,
}
use vim_script.Host.{HostRequest, CommandRequest}
use vim_script.Runtime.Error.{Result, ok, err, panic}
use vim_script.Host.Dispatch.{
  Capability, first_missing, allows_all, arity_accepts, HostFunctionRegistration, CommandDefinition,
  HostApi, HostRuntime, abbreviates, matching, one_of, resolve, call_registered, dispatch, refusal,
  run_resolved, after_resolve, dispatch_command,
}

first_missing-none :
    (granted required : List Capability)
    → first_missing granted required ≡ none
    → allows_all granted required ≡ true
unfolding first_missing allows_all
first_missing-none granted [] e = refl
first_missing-none granted (c ∷ required) e = ground (arith, first_missing-none granted required)

pub data Elem {A : Type 0} (a : A) : List A → Type 0 where
  here : {xs : List A} → Elem a (a ∷ xs)
  there : {x : A} {xs : List A} → Elem a xs → Elem a (x ∷ xs)

abbrev AllFit : Text → List CommandDefinition → Type 0
AllFit name [] = Unit {0}
AllFit name (d ∷ ds) = (abbreviates name d ≡ true) × AllFit name ds

matching-AllFit :
    (name : Text) (cs : List (Text × CommandDefinition)) → AllFit name (matching name cs)
unfolding matching
matching-AllFit name [] = tt
matching-AllFit name ((k, c) ∷ cs) = elim (Bool-cases (abbreviates name c)) [
  | inl fits ↦ rw (fits, matching) (fits, matching-AllFit name cs)
  | inr other ↦ rw (other, matching) (matching-AllFit name cs)
]

matching-Elem :
    (name k : Text) (d : CommandDefinition) (cs : List (Text × CommandDefinition))
    → abbreviates name d ≡ true
    → Elem (k, d) cs
    → Elem d (matching name cs)
unfolding matching
matching-Elem name k d [] a at = elim at [ ]
matching-Elem name k d ((_, _) ∷ xs) a here = rw (a, matching) here
matching-Elem name k d ((j, c) ∷ xs) a (there at) = elim (Bool-cases (abbreviates name c)) [
  | inl fits ↦ rw (fits, matching) (there (matching-Elem name k d xs a at))
  | inr other ↦ rw (other, matching) (matching-Elem name k d xs a at)
]

Elem-one : {A : Type 0} (a b : A) → Elem a (b ∷ []) → a ≡ b
Elem-one a _ here = refl
Elem-one a b (there at) = elim at [ ]

-- What a name is resolved to.
pub data Resolved (name : Text) (commands : List (Text × CommandDefinition)) (d : CommandDefinition)
    : Type 0 where
  exactly : lookup name commands ≡ some d → Resolved name commands d
  abbreviated :
      abbreviates name d ≡ true
      → ((k : Text) (c : CommandDefinition)
          → Elem (k, c) commands
          → abbreviates name c ≡ true
          → c ≡ d)
      → Resolved name commands d

one_of-sole :
    (name : Text) (ds : List CommandDefinition) (d : CommandDefinition)
    → one_of name ds ≡ ok d
    → ds ≡ d ∷ []
unfolding one_of
one_of-sole name [] d e = cc
one_of-sole name (c ∷ []) d e = cc
one_of-sole name (c ∷ b ∷ more) d e = cc

ok-injective : {A : Type 0} (a b : A) → ok a ≡ ok b → a ≡ b
ok-injective a b e = cc

-- A name that resolves is the whole name of a command, or abbreviates the command by at least as
-- many bytes as it asks for, and no other command that is registered.
pub resolve-Resolved :
    (name : Text) (commands : List (Text × CommandDefinition)) (d : CommandDefinition)
    → resolve name commands ≡ ok d
    → Resolved name commands d
unfolding resolve
resolve-Resolved name commands d e = elim (Option-cases (lookup name commands)) [
  | inr (c, found) ↦
      exactly (found ∙ ap some (ok-injective c d (sym (rw (found, resolve) refl) ∙ e)))
  | inl missing ↦
      let sole =
        one_of-sole name (matching name commands) d (sym (rw (missing, resolve) refl) ∙ e) in
      abbreviated (subst (AllFit name) sole (matching-AllFit name commands)).0 (λ k c at fits.
        Elem-one c d (subst (Elem c) sole (matching-Elem name k c commands fits at)))
]

-- A host function is called only when it is registered, takes that many arguments, and
-- every capability that it requires is granted; it is called at its own target.
pub dispatch-permitted :
    {Fut : Type 0} (api : HostApi Fut) (h : HostRuntime) (request : HostRequest) (future : Fut)
    → dispatch api h request ≡ ok future
    → (r : HostFunctionRegistration) × (lookup request.function h.functions ≡ some r)
      × (arity_accepts r.arity (length request.arguments) ≡ true)
      × (allows_all h.capabilities r.required_capabilities ≡ true)
      × (future ≡ api.call (record request { target = r.target }))
unfolding dispatch call_registered
dispatch-permitted api h request future e =
    elim (Option-cases (lookup request.function h.functions)) [
      | inl missing ↦ ground (arith, missing, e)
      | inr (r, found) ↦ (
        r,
        found,
        ground (arith, found, e),
        first_missing-none h.capabilities r.required_capabilities (ground (arith, found, e)),
        ground (arith, found, e),
      )
    ]

after_resolve-permitted :
    {Fut : Type 0} (api : HostApi Fut) (h : HostRuntime) (request : CommandRequest) (future : Fut)
    (r : Result CommandDefinition)
    → resolve request.command.name h.commands ≡ r
    → after_resolve api h request r ≡ ok future
    → (d : CommandDefinition) × Resolved request.command.name h.commands d
      × (request.command.bang ≡ true → d.accepts_bang ≡ true)
      × (is_some request.command.range ≡ true → d.accepts_range ≡ true)
      × (allows_all h.capabilities d.required_capabilities ≡ true)
      × (future
          ≡ api.execute_command
              (record request { command = record request.command { name = d.name } }))
unfolding after_resolve run_resolved refusal
after_resolve-permitted api h request future (ok d) q e = (
  d,
  resolve-Resolved request.command.name h.commands d q,
  λ b. ground (arith, e, b),
  λ b. ground (arith, e, b),
  ground (arith, e),
  ground (arith, e),
)
after_resolve-permitted api h request future (err x) q e = cc
after_resolve-permitted api h request future panic q e = cc

-- A command is carried out only under the full name of the command that its name resolves to, with a
-- `!` and with a range only if the command accepts them, and when every capability that it
-- requires is granted.
pub dispatch_command-permitted :
    {Fut : Type 0} (api : HostApi Fut) (h : HostRuntime) (request : CommandRequest) (future : Fut)
    → dispatch_command api h request ≡ ok future
    → (d : CommandDefinition) × Resolved request.command.name h.commands d
      × (request.command.bang ≡ true → d.accepts_bang ≡ true)
      × (is_some request.command.range ≡ true → d.accepts_range ≡ true)
      × (allows_all h.capabilities d.required_capabilities ≡ true)
      × (future
          ≡ api.execute_command
              (record request { command = record request.command { name = d.name } }))
unfolding dispatch_command
dispatch_command-permitted api h request future e =
    after_resolve-permitted api h request future (resolve request.command.name h.commands) refl e
