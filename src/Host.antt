-- ===== src/Host.antt =====
-- src/host.rs: the requests that a virtual machine hands to its host.
pub mod Words
pub mod UserCommands
pub mod Dispatch
pub mod MapNames
pub mod Mappings
pub mod Autocommands
pub mod Methods
pub mod MapLetters
pub mod CommandNames
pub mod MapText
pub mod MapCommands
pub mod Expansion
pub mod Registered
pub mod Kept
pub mod Reachable
pub mod Engine
pub mod Access
mod Tests
mod CommandTests
use vim_script.Prelude.{ℕ, Option, List, Text}
use vim_script.Ast.{ExCommand}
use vim_script.Runtime.Value.{Value}

pub record HostContext : Type 0 where
  pub script_name : Option Text
  pub current_buffer : Option ℕ
  pub current_window : Option ℕ
  pub current_tab : Option ℕ

pub data HostTarget : Type 0 where
  global : HostTarget
  namespace : Text → HostTarget
  object : ℕ → HostTarget

pub record HostRequest : Type 0 where
  pub target : HostTarget
  pub function : Text
  pub arguments : List Value
  pub context : HostContext

pub data OptionRequestOperation : Type 0 where
  get : OptionRequestOperation
  set : Value → OptionRequestOperation

pub data OptionRequestScope : Type 0 where
  unqualified local global : OptionRequestScope

pub record OptionRequest : Type 0 where
  pub operation : OptionRequestOperation
  pub name : Text
  pub scope : OptionRequestScope
  pub context : HostContext

pub record CommandRequest : Type 0 where
  pub command : ExCommand
  pub context : HostContext
