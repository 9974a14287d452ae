-- ===== src/Api/Model/Keys.antt =====
-- crates/elasticctl-api/src/model.rs: the derived order of `ListKey`.
use Prim.Native.Nat.{Ordering}
use Prim.Native.Nat.Ordering.{eq}
use elasticctl.Prelude.{◌≡◌, String, ap}
use elasticctl.Prelude.Order.{Ord, string_ord}
use elasticctl.Prelude.Keys.{
  cmp_pair, cmp_pair_refl, cmp_pair-eq, cmp_pair-lt_of_gt, cmp_pair-gt_of_lt, cmp_pair-lt_trans,
}
use elasticctl.Api.Model.{ListKey}

abbrev pub fields : ListKey → String × String
fields k = (k.list_id, k.namespace_type)

abbrev pub cmp_key : ListKey → ListKey → Ordering
cmp_key j k = cmp_pair (fields j) (fields k)

key_of : String × String → ListKey
key_of p = record { list_id = p.0; namespace_type = p.1 }

pub cmp_key-eq : (j k : ListKey) → cmp_key j k ≡ eq → j ≡ k
unfolding key_of
cmp_key-eq j k h = ap key_of (cmp_pair-eq (fields j) (fields k) h)

instance abbrev pub key_ord : Ord ListKey
key_ord = record {
  cmp = cmp_key;
  cmp_refl = λ k. cmp_pair_refl (fields k);
  eq_of_cmp = cmp_key-eq;
  lt_of_gt = λ j k. cmp_pair-lt_of_gt (fields j) (fields k);
  gt_of_lt = λ j k. cmp_pair-gt_of_lt (fields j) (fields k);
  lt_trans = λ j k l. cmp_pair-lt_trans (fields j) (fields k) (fields l);
}
