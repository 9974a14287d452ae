-- ===== src/Api/Report.antt =====
-- crates/elasticctl-api/src/report.rs: what a push proposed and did, as evidence.
use elasticctl.Prelude.{
  ℕ, suc, String, Bool, not, ◌&&◌, ◌||◌, Option, List, [], ◌∷◌, is_some, if◌then◌else◌,
}
use elasticctl.Prelude.Order.{◌=?◌, string_ord}
use elasticctl.Json.{Value}

pub record ReportEntry : Type 0 where
  pub rule_id : String
  pub name : String
  pub action : String
  pub before : Option Value
  pub after : Option Value
  pub applied : Bool
  pub error : Option String

pub record ChangeReport : Type 0 where
  pub profile : String
  pub host : String
  pub space : String
  pub applied : Bool
  pub entries : List ReportEntry

-- `filter` and `count` of an iterator
unfoldable pub count : (ReportEntry → Bool) → List ReportEntry → ℕ
count p [] = 0
count p (e ∷ es) = let rest = count p es in if p e then suc rest else rest

-- whether an entry is of a rule that the push is to write
unfoldable pub is_write : ReportEntry → Bool
is_write e = (e.action =? "create") || (e.action =? "update")

unfoldable pub is_pending : ReportEntry → Bool
is_pending e = is_write e && (not e.applied && not (is_some e.error))

unfoldable pub pending : ChangeReport → ℕ
pending r = count is_pending r.entries

-- the entries that were created, updated and skipped, and those that failed
unfoldable pub counts : ChangeReport → ℕ × ℕ × ℕ × ℕ
counts r = (
  count (λ e. (e.action =? "create") && e.applied) r.entries,
  count (λ e. (e.action =? "update") && e.applied) r.entries,
  count (λ e. e.action =? "skipped_remote_only") r.entries,
  count (λ e. is_some e.error) r.entries,
)
