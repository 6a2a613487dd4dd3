-- ===== src/Host/Expansion.antt =====
-- src/host.rs: prepare_command replaces user commands until none is left.
use vim_script.Prelude.{
  ◌≡◌, refl, sym, ◌∙◌, inl, inr, ℕ, zero, suc, none, List, Text, text_eq, find, arith, Option-cases,
}
use vim_script.Ast.{ExCommand}
use vim_script.Runtime.Error.{Result, ok, err, panic, Result-cases}
use vim_script.Host.{CommandRequest}
use vim_script.Host.UserCommands.{UserCommand, expand}
use vim_script.Host.Dispatch.{HostRuntime}
use vim_script.Host.Methods.{with_expansion, prepare_rounds, prepare_command}

expansion_context :
    (request next : CommandRequest) (r : Result ExCommand)
    → with_expansion request r ≡ ok next
    → next.context ≡ request.context
unfolding with_expansion
expansion_context request next (ok c) e = ground (arith, e)
expansion_context request next (err f) e = ground (arith, e)
expansion_context request next panic e = ground (arith, e)

abbrev Settled : List (Text × UserCommand) → CommandRequest → CommandRequest → Type 0
Settled commands request result =
    (find text_eq result.command.name commands ≡ none) × (result.context ≡ request.context)

prepare_rounds-Settled :
    (rounds : ℕ) (commands : List (Text × UserCommand)) (request result : CommandRequest)
    → prepare_rounds rounds commands request ≡ ok result
    → Settled commands request result
unfolding prepare_rounds
prepare_rounds-Settled zero commands request result e = ground arith
prepare_rounds-Settled (suc rounds) commands request result e =
    elim (Option-cases (find text_eq request.command.name commands)) [
      | inl missing ↦
          let same : ok request ≡ ok result = sym (rw (missing, prepare_rounds) refl) ∙ e in
          ground (arith, same, missing)
      | inr (u, found) ↦ elim (Result-cases (with_expansion request (expand u request.command))) [
        | inl (next, expanded) ↦
            let rest : prepare_rounds rounds commands next ≡ ok result =
              sym (rw (found, prepare_rounds, expanded) refl) ∙ e in
            let (settled, kept) = prepare_rounds-Settled rounds commands next result rest in
            (settled, kept ∙ expansion_context request next (expand u request.command) expanded)
        | inr (inl (f, failed)) ↦
            let bad : err f ≡ ok result = sym (rw (found, prepare_rounds, failed) refl) ∙ e in
            ground (arith, bad)
        | inr (inr aborts) ↦
            let bad : panic ≡ ok result = sym (rw (found, prepare_rounds, aborts) refl) ∙ e in
            ground (arith, bad)
      ]
    ]

-- A command that prepare_command returns is not the name of a user command, and it keeps the
-- context of the request.
pub prepare_command-settled :
    (h : HostRuntime) (request result : CommandRequest)
    → prepare_command h request ≡ ok result
    → (find text_eq result.command.name h.user_commands ≡ none) × (result.context ≡ request.context)
unfolding prepare_command
prepare_command-settled h request result e =
    prepare_rounds-Settled 32 h.user_commands request result e
