-- ===== src/Governance/Trace/AppendOnly.antt =====
-- No call removes or changes a row: every table only grows at its end.
use atlas_db_agent.Prelude.{List, ◌≡◌, sym, ◌∙◌, ap, [], ◌∷◌, ◌++◌, append-nil, append_assoc, All}
use atlas_db_agent.Values.{Hashes}
use atlas_db_agent.Governance.Rows.{Db}
use atlas_db_agent.Governance.Preserves.Laws.{AreLawful, KeptByInserts}
use atlas_db_agent.Governance.Preserves.Inserts.{
  insert_artifact-Preserves, insert_baseline-Preserves, insert_or_ignore_comparison-Preserves,
  insert_amendment-Preserves, insert_platform_decision-Preserves, insert_certification-Preserves,
  append_event-Preserves,
}
use atlas_db_agent.Governance.Trace.{Call, after_all, IsDated, after_all-keeps}

-- `xs` stands at the front of `ys`.
abbrev pub Front : {A : Type 0} → List A → List A → Type 0
Front {A} xs ys = (zs : List A) × (ys ≡ xs ++ zs)

Front-refl : {A : Type 0} (xs : List A) → Front xs xs
Front-refl xs = ([], sym (append-nil xs))

Front-concat : {A : Type 0} (xs ys : List A) (y : A) → Front xs ys → Front xs (ys ++ y ∷ [])
Front-concat xs ys y (zs, e) = (zs ++ y ∷ [], ap (λ l. l ++ y ∷ []) e ∙ append_assoc xs zs (y ∷ []))

-- Every table of the first state is the front of that table in the second.
pub record Extends (db db' : Db) : Type 0 where
  pub artifacts : Front db.artifacts db'.artifacts
  pub baselines : Front db.baselines db'.baselines
  pub comparisons : Front db.comparisons db'.comparisons
  pub amendments : Front db.amendments db'.amendments
  pub platform_decisions : Front db.platform_decisions db'.platform_decisions
  pub certifications : Front db.certifications db'.certifications
  pub audit_events : Front db.audit_events db'.audit_events

Extends-refl : (db : Db) → Extends db db
Extends-refl db = record {
  artifacts = Front-refl _;
  baselines = Front-refl _;
  comparisons = Front-refl _;
  amendments = Front-refl _;
  platform_decisions = Front-refl _;
  certifications = Front-refl _;
  audit_events = Front-refl _;
}

module _ (h : Hashes) (start : Db) where
  Extends-KeptByInserts : KeptByInserts h (Extends start)
  Extends-KeptByInserts = record {
    by_artifact = λ r _. insert_artifact-Preserves r (λ db x. record {
      artifacts = Front-concat _ _ r x.artifacts;
      baselines = x.baselines;
      comparisons = x.comparisons;
      amendments = x.amendments;
      platform_decisions = x.platform_decisions;
      certifications = x.certifications;
      audit_events = x.audit_events;
    });
    by_baseline = λ r. insert_baseline-Preserves r (λ db x. record {
      artifacts = x.artifacts;
      baselines = Front-concat _ _ r x.baselines;
      comparisons = x.comparisons;
      amendments = x.amendments;
      platform_decisions = x.platform_decisions;
      certifications = x.certifications;
      audit_events = x.audit_events;
    });
    by_comparison = λ r. insert_or_ignore_comparison-Preserves r (λ db x. record {
      artifacts = x.artifacts;
      baselines = x.baselines;
      comparisons = Front-concat _ _ r x.comparisons;
      amendments = x.amendments;
      platform_decisions = x.platform_decisions;
      certifications = x.certifications;
      audit_events = x.audit_events;
    });
    by_amendment = λ r. insert_amendment-Preserves r (λ db x. record {
      artifacts = x.artifacts;
      baselines = x.baselines;
      comparisons = x.comparisons;
      amendments = Front-concat _ _ r x.amendments;
      platform_decisions = x.platform_decisions;
      certifications = x.certifications;
      audit_events = x.audit_events;
    });
    by_decision = λ r. insert_platform_decision-Preserves r (λ db x. record {
      artifacts = x.artifacts;
      baselines = x.baselines;
      comparisons = x.comparisons;
      amendments = x.amendments;
      platform_decisions = Front-concat _ _ r x.platform_decisions;
      certifications = x.certifications;
      audit_events = x.audit_events;
    });
    by_certification = λ r. insert_certification-Preserves r (λ db x. record {
      artifacts = x.artifacts;
      baselines = x.baselines;
      comparisons = x.comparisons;
      amendments = x.amendments;
      platform_decisions = x.platform_decisions;
      certifications = Front-concat _ _ r x.certifications;
      audit_events = x.audit_events;
    });
    by_event = λ kind i a t d _. append_event-Preserves h kind i a t d (λ r db x. record {
      artifacts = x.artifacts;
      baselines = x.baselines;
      comparisons = x.comparisons;
      amendments = x.amendments;
      platform_decisions = x.platform_decisions;
      certifications = x.certifications;
      audit_events = Front-concat _ _ r x.audit_events;
    });
  }

  -- With lawful hashes, whatever the calls with canonical timestamps, every row of every table, the
  -- audit events included, is where it was.
  pub after_all-Extends :
      AreLawful h → (cs : List Call) → All (IsDated h) cs → Extends start (after_all h cs start)
  after_all-Extends law cs d =
      after_all-keeps h law Extends-KeptByInserts cs start d (Extends-refl start)
