-- ===== src/Host/Tests.antt =====
-- src/host.rs: dispatching at concrete inputs.
use vim_script.Prelude.{
  byte_length, len_utf8, ◌≡◌, refl, true, false, none, some, [], ◌∷◌, Text, text, lookup, is_some,
  text_eq, starts_with,
}
use vim_script.Host.{HostContext, HostTarget, HostRequest, CommandRequest}
use vim_script.Runtime.Value.{Value}
use vim_script.Runtime.Error.{ok}
use vim_script.Host.Dispatch.{
  Capability, Arity, allows, first_missing, allows_all, arity_accepts, capability_eq,
  HostFunctionRegistration, CommandDefinition, HostApi, HostRuntime, abbreviates, matching, one_of,
  resolve, call_registered, dispatch, refusal, run_resolved, after_resolve, dispatch_command,
}
use vim_script.Host.Methods.{new_host}
use vim_script.Host.Access.{
  Resolved, resolve-Resolved, dispatch-permitted, dispatch_command-permitted,
}

-- A future is the name of what is called.
abbrev echo : HostApi Text
echo = record {
  call = λ r. r.function;
  option = λ r. r.name;
  execute_command = λ r. r.command.name;
  debug_capability = λ c. [];
}

abbrev write : CommandDefinition
write = record {
  name = text "write";
  minimum_abbreviation = 1;
  accepts_bang = true;
  accepts_range = false;
  accepts_count = false;
  accepts_register = false;
  required_capabilities = Capability.file_system_write ∷ [];
}

abbrev read : HostFunctionRegistration
read = record {
  name = text "read";
  target = HostTarget.namespace (text "fs");
  arity = Arity.exact 1;
  required_capabilities = Capability.file_system_read ∷ [];
}

abbrev granting : HostRuntime
granting = record new_host {
  functions = (text "read", read) ∷ [];
  commands = (text "write", write) ∷ [];
  capabilities = Capability.file_system_write ∷ Capability.file_system_read ∷ [];
}

abbrev nowhere : HostContext
nowhere = record {
  script_name = none;
  current_buffer = none;
  current_window = none;
  current_tab = none;
}

abbrev read_request : HostRequest
read_request = record {
  target = HostTarget.global;
  function = text "read";
  arguments = Value.null ∷ [];
  context = nowhere;
}

read_goes : dispatch echo granting read_request ≡ ok (text "read")
unfolding dispatch call_registered lookup text_eq arity_accepts first_missing allows capability_eq
read_goes = refl

dispatch-permitted_example :
    (r : HostFunctionRegistration) × (lookup (text "read") granting.functions ≡ some r)
    × (arity_accepts r.arity 1 ≡ true)
    × (allows_all granting.capabilities r.required_capabilities ≡ true)
    × (text "read" ≡ echo.call (record read_request { target = r.target }))
dispatch-permitted_example = dispatch-permitted echo granting read_request (text "read") read_goes

abbrev wr : CommandRequest
wr = record {
  command = record {
    modifiers = [];
    range = none;
    name = text "wr";
    bang = true;
    count = none;
    register = none;
    arguments = [];
  };
  context = nowhere;
}

wr_resolves : resolve (text "wr") granting.commands ≡ ok write
unfolding resolve lookup text_eq one_of matching abbreviates starts_with byte_length len_utf8
wr_resolves = refl

resolve-Resolved_example : Resolved (text "wr") granting.commands write
resolve-Resolved_example = resolve-Resolved (text "wr") granting.commands write wr_resolves

wr_goes : dispatch_command echo granting wr ≡ ok (text "write")
unfolding dispatch_command after_resolve run_resolved refusal resolve lookup text_eq one_of matching
    abbreviates starts_with byte_length len_utf8 allows_all allows capability_eq
wr_goes = refl

dispatch_command-permitted_example :
    (d : CommandDefinition) × Resolved (text "wr") granting.commands d
    × (true ≡ true → d.accepts_bang ≡ true)
    × (is_some wr.command.range ≡ true → d.accepts_range ≡ true)
    × (allows_all granting.capabilities d.required_capabilities ≡ true)
    × (text "write"
        ≡ echo.execute_command (record wr { command = record wr.command { name = d.name } }))
dispatch_command-permitted_example =
    dispatch_command-permitted echo granting wr (text "write") wr_goes
