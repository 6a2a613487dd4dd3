-- ===== src/Host/Engine.antt =====
-- src/runtime/scheduler.rs: the scheduler's calls of its host runtime, which are those of
-- src/host.rs. The host, the futures' polling and the platform are those of the embedding program.
use vim_script.Host.Dispatch.{HostApi, HostRuntime, dispatch, dispatch_option, dispatch_command}
use vim_script.Host.Methods.{
  install_globals, define_user_command, delete_user_command, handle_registration_command,
  prepare_command,
}
use vim_script.Runtime.Vm.State.{Platform}
use vim_script.Runtime.Scheduler.State.{Poll, Engine}

unfoldable pub host_engine :
    {Fut : Type 0} → Platform → (Fut → Poll Fut) → HostApi Fut → Engine HostRuntime Fut
host_engine platform poll api = record {
  platform = platform;
  poll = poll;
  install_globals = install_globals;
  dispatch = dispatch api;
  dispatch_option = dispatch_option api;
  define_user_command = λ h c. define_user_command c h;
  delete_user_command = λ h c. delete_user_command c h;
  handle_registration_command = λ h r. handle_registration_command r h;
  prepare_command = prepare_command;
  dispatch_command = dispatch_command api;
}
