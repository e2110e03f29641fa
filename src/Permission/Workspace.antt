-- ===== src/Permission/Workspace.antt =====
-- permission/policy.go: the `Workspace` policy, and what it lets through.
use wombat_go.Common.{
  true, false, ◌&&◌, ◌≡◌, ◌≢◌, refl, ◌⊎◌, inl, inr, List, [], ◌∷◌, arith, some, is_empty, All, ◌=?◌,
}
use wombat_go.Tool.{cap_read_only, cap_exec, cap_meta, intersects}
use wombat_go.Paths.{Text}
use wombat_go.Permission.{
  Decision, undecided, allow, deny, ask, Reason, orchestration, Request, Policy, fallback, decide,
}
use wombat_go.Permission.Deciding.{decide_rules-GivenBy}
use wombat_go.Permission.Rules.{
  Decode, extract_paths, ask_for, allow_caps, self_contained, fs_root, soften, inside_root_rule,
}
use wombat_go.Permission.Rules.Containment.{IsRoot, Under, fs_root-Under}
use wombat_go.Permission.Shell.{safe_commands}
use wombat_go.Permission.Shell.Matching.{safe_commands-cases}

-- `Workspace(root)`; the root is what `root_dir` returned for it.
unfoldable pub workspace : Decode → Text → Policy
unfolding allow_caps self_contained ask_for inside_root_rule safe_commands
workspace decode root = record {
  rules =
      some (allow_caps cap_meta orchestration)
      ∷ some self_contained
      ∷ some (safe_commands decode root [])
      ∷ some (ask_for cap_exec)
      ∷ some (inside_root_rule decode root)
      ∷ [];
  default = ask;
}

soften-ne-deny : (v : Decision × Reason) → (soften v).0 ≢ deny
soften-ne-deny (undecided, why) e = cc
soften-ne-deny (allow, why) e = cc
soften-ne-deny (deny, why) e = cc
soften-ne-deny (ask, why) e = cc

soften-allow : (v : Decision × Reason) → (soften v).0 ≡ allow → v.0 ≡ allow
soften-allow (undecided, why) e = cc
soften-allow (allow, why) e = refl
soften-allow (deny, why) e = cc
soften-allow (ask, why) e = cc

clash : {d : Decision} → d ≡ allow → d ≡ deny → ⊥
clash e f = cc (e, f)

module _ (decode : Decode) (root : Text) (r : Request) where
  -- `Workspace` never refuses a call by itself: it allows it or asks.
  pub workspace-ne-deny : (decide (workspace decode root) r).0 ≢ deny
  unfolding decide workspace
  workspace-ne-deny e = elim (decide_rules-GivenBy (workspace decode root).rules ask r deny e) [
    | inr f ↦ unfold fallback in cc f
    | inl (inl f) ↦ ground (arith, f)
    | inl (inr (inl f)) ↦ ground (arith, f)
    | inl (inr (inr (inl f))) ↦ elim (safe_commands-cases decode root [] r) [
      | inl s ↦ clash s f
      | inr s ↦ cc (s, f)
    ]
    | inl (inr (inr (inr (inl f)))) ↦ ground (arith, f)
    | inl (inr (inr (inr (inr (inl f))))) ↦ soften-ne-deny (fs_root decode root r) f
    | inl (inr (inr (inr (inr (inr f))))) ↦ f
  ]

  -- `Workspace` allows a call without asking only for one of four reasons: the tool is an
  -- orchestration tool; it reads and needs nothing of the host; `SafeCommands` allows its command;
  -- or it runs no command, names some path, and every path that it names lies under the root.
  pub workspace-allow :
      (rs : List Text)
      → IsRoot root rs
      → (decide (workspace decode root) r).0 ≡ allow
      → (intersects r.tool.caps cap_meta ≡ true)
        ⊎ (((r.tool.caps =? cap_read_only) && (r.tool.needs =? 0) ≡ true)
            ⊎ (((safe_commands decode root [] r).0 ≡ allow)
                ⊎ ((intersects r.tool.caps cap_exec ≡ false)
                    × (is_empty (extract_paths decode r.use_block.input) ≡ false)
                    × All (Under root rs) (extract_paths decode r.use_block.input))))
  unfolding decide workspace
  workspace-allow rs v h = elim (decide_rules-GivenBy (workspace decode root).rules ask r allow h) [
    | inr f ↦ absurd (unfold fallback in cc f)
    | inl (inl f) ↦ inl (ground (arith, f))
    | inl (inr (inl f)) ↦ inr (inl (ground (arith, f)))
    | inl (inr (inr (inl f))) ↦ inr (inr (inl f))
    | inl (inr (inr (inr (inl f)))) ↦ absurd (ground (arith, f))
    | inl (inr (inr (inr (inr (inl f))))) ↦
        inr (inr (inr (fs_root-Under decode root rs r v (soften-allow (fs_root decode root r) f))))
    | inl (inr (inr (inr (inr (inr f))))) ↦ absurd f
  ]
