-- ===== src/Store/Commands.antt =====
-- app/control/account/commands.py and models.py: the commands and the result of a mutation.
use grok2apinew.Prelude.{ℕ, String, Bool, Option, List}
use grok2apinew.Prelude.Int.{ℤ}
use grok2apinew.Prelude.Keyed.{Keyed}
use grok2apinew.Account.Models.{AccountStatus, WindowDict, Value}

pub record AccountUpsert : Type 0 where
  pub token : String
  pub pool : String
  pub tags : List String
  pub ext : Keyed Value

pub record AccountPatch : Type 0 where
  pub token : String
  pub pool : Option String
  pub status : Option AccountStatus
  pub tags : Option (List String)
  pub add_tags : Option (List String)
  pub remove_tags : Option (List String)
  pub quota_auto : Option WindowDict
  pub quota_fast : Option WindowDict
  pub quota_expert : Option WindowDict
  pub quota_heavy : Option WindowDict
  pub quota_grok_4_3 : Option WindowDict
  pub usage_use_delta : Option ℤ
  pub usage_fail_delta : Option ℤ
  pub usage_sync_delta : Option ℤ
  pub last_use_at : Option ℤ
  pub last_fail_at : Option ℤ
  pub last_fail_reason : Option String
  pub last_sync_at : Option ℤ
  pub last_clear_at : Option ℤ
  pub state_reason : Option String
  pub ext_merge : Option (Keyed Value)
  pub clear_failures : Bool

pub record AccountMutationResult : Type 0 where
  pub upserted : ℕ
  pub patched : ℕ
  pub deleted : ℕ
  pub revision : ℕ

-- AccountMutationResult()
abbrev pub no_mutation : AccountMutationResult
no_mutation = record { upserted = 0; patched = 0; deleted = 0; revision = 0 }

pub record BulkReplacePoolCommand : Type 0 where
  pub pool : String
  pub upserts : List AccountUpsert
