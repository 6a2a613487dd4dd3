-- ===== src/Integration/Modules.antt =====
-- src/integration.rs: the cache of compiled modules, which has no methods.
use vim_script.Prelude.{ℕ, List, Text}
use vim_script.Bytecode.{BytecodeModule}

pub data LanguageVersion : Type 0 where
  legacy vim9 : LanguageVersion

pub record ModuleCacheKey : Type 0 where
  pub source_name : Text
  pub content_hash : ℕ
  pub language_version : LanguageVersion

pub record ModuleCache : Type 0 where
  pub modules : List (ModuleCacheKey × BytecodeModule)
