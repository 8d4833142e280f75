-- ===== src/Governance/Trace.antt =====
-- Calls of the store's methods in any order, each on the state that the one before left.
pub mod Audited
pub mod Readable
pub mod AppendOnly
use atlas_db_agent.Prelude.{String, some, List, [], ◌∷◌, ◌≡◌, All}
use atlas_db_agent.Values.{Hashes}
use atlas_db_agent.Governance.Rows.{PlatformDecision, Certification, Db}
use atlas_db_agent.Governance.Admission.{Model, Admission, admit_model}
use atlas_db_agent.Governance.Baselines.{register_baseline}
use atlas_db_agent.Governance.Comparisons.{compare_to_baseline}
use atlas_db_agent.Governance.Bindings.{
  ScenarioSpec, amend_scenario_spec, bind_platform_decision, bind_certification,
}
use atlas_db_agent.Governance.Batches.{
  ScenarioBatch, BddBatch, RuntimeBatch, admit_scenario_batch, admit_bdd_batch, admit_runtime_batch,
}
use atlas_db_agent.Governance.Preserves.Batching.{
  admit_scenario_batch-Preserves, admit_bdd_batch-Preserves, admit_runtime_batch-Preserves,
}
use atlas_db_agent.Governance.Preserves.{Preserves}
use atlas_db_agent.Governance.Preserves.Laws.{AreLawful, KeptByInserts}
use atlas_db_agent.Governance.Preserves.Admitting.{admit_model-Preserves}
use atlas_db_agent.Governance.Preserves.Comparing.{
  register_baseline-Preserves, compare_to_baseline-Preserves,
}
use atlas_db_agent.Governance.Preserves.Binding.{
  amend_scenario_spec-Preserves, bind_platform_decision-Preserves, bind_certification-Preserves,
}

-- A call with its arguments.
pub data Call : Type 0 where
  admit : Model → Admission → Call
  register : String → String → String → String → Call
  compare : String → String → String → Call
  amend : String → ScenarioSpec → String → String → String → Call
  decide : PlatformDecision → Call
  certify : Certification → Call
  admit_scenarios : ScenarioBatch → String → String → Call
  admit_bdds : BddBatch → String → String → Call
  admit_runtimes : RuntimeBatch → String → String → Call

module _ (h : Hashes) where
  -- The state behind a call, whether it returned or raised.
  unfoldable pub after : Call → Db → Db
  after (admit m a) db = (admit_model h m a db).1
  after (register artifact_id authority_ref effective_from actor_ref) db =
      (register_baseline h artifact_id authority_ref effective_from actor_ref db).1
  after (compare candidate_id compared_at actor_ref) db =
      (compare_to_baseline h candidate_id compared_at actor_ref db).1
  after (amend original_id spec editor_ref reason amended_at) db =
      (amend_scenario_spec h original_id spec editor_ref reason amended_at db).1
  after (decide e) db = (bind_platform_decision h e db).1
  after (certify e) db = (bind_certification h e db).1
  after (admit_scenarios b created_at actor_ref) db =
      (admit_scenario_batch h created_at actor_ref b db).1
  after (admit_bdds b created_at actor_ref) db = (admit_bdd_batch h created_at actor_ref b db).1
  after (admit_runtimes b created_at actor_ref) db =
      (admit_runtime_batch h created_at actor_ref b db).1

  unfoldable pub after_all : List Call → Db → Db
  unfolding after
  after_all [] db = db
  after_all (c ∷ cs) db = after_all cs (after c db)

  -- The timestamps that a method stores or hashes as they are given are canonical: `created_at`
  -- and `amended_at`, and the envelopes' own, which their models make so.
  abbrev pub IsDated : Call → Type 0
  IsDated (admit m a) = h.canonical_timestamp a.created_at ≡ some a.created_at
  IsDated (amend _ _ _ _ amended_at) = h.canonical_timestamp amended_at ≡ some amended_at
  IsDated (decide e) = h.canonical_timestamp e.effective_at ≡ some e.effective_at
  IsDated (certify e) = h.canonical_timestamp e.valid_from ≡ some e.valid_from
  IsDated (admit_scenarios _ created_at _) = h.canonical_timestamp created_at ≡ some created_at
  IsDated (admit_bdds _ created_at _) = h.canonical_timestamp created_at ≡ some created_at
  IsDated (admit_runtimes _ created_at _) = h.canonical_timestamp created_at ≡ some created_at
  IsDated (register _ _ _ _) = Unit
  IsDated (compare _ _ _) = Unit

module _ {ℓ} (h : Hashes) (law : AreLawful h) {P : Db → Type ℓ} (k : KeptByInserts h P) where
  after-keeps : (c : Call) (db : Db) → IsDated h c → P db → P (after h c db)
  unfolding after
  after-keeps (admit m a) db d p = (admit_model-Preserves h law k m a d).at db p
  after-keeps (register i r f a) db d p = (register_baseline-Preserves h law k i r f a).at db p
  after-keeps (compare i t a) db d p = (compare_to_baseline-Preserves h law k i t a).at db p
  after-keeps (amend i s e r t) db d p = (amend_scenario_spec-Preserves h law k i s e r t d).at db p
  after-keeps (decide e) db d p = (bind_platform_decision-Preserves h law k e d).at db p
  after-keeps (certify e) db d p = (bind_certification-Preserves h law k e d).at db p
  after-keeps (admit_scenarios b c a) db d p =
      (admit_scenario_batch-Preserves h law k c a d b).at db p
  after-keeps (admit_bdds b c a) db d p = (admit_bdd_batch-Preserves h law k c a d b).at db p
  after-keeps (admit_runtimes b c a) db d p =
      (admit_runtime_batch-Preserves h law k c a d b).at db p

  -- A property that every insert keeps is kept by every sequence of calls.
  pub after_all-keeps :
      (cs : List Call) (db : Db) → All (IsDated h) cs → P db → P (after_all h cs db)
  unfolding after_all
  after_all-keeps [] db d p = p
  after_all-keeps (c ∷ cs) db (d, ds) p =
      after_all-keeps cs (after h c db) ds (after-keeps c db d p)
