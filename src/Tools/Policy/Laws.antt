-- ===== src/Tools/Policy/Laws.antt =====
-- What the engine decides, in terms of the configured list alone.
use secure_claw.Base.{
  String, ◌≡◌, refl, true, false, ◌||◌, Option, none, some, List, [], ◌∷◌, map, arith, ◌==◌,
  if◌then◌else◌, keep, eq_iff, if_cases,
}
use secure_claw.Base.Dict
use secure_claw.Base.Dict.{Dict}
use secure_claw.Tools.Policy.{
  ToolPolicyEntry, ToolPolicyEngine, PolicyDecisionResult, Evaluation, ok, denied, map_entries,
  engine, has, decide, evaluate, is_allowed, get_allowed_tool_ids,
}

-- The entry that counts for a tool: the last one of the list with its id.
unfoldable pub last_entry :
    Option ToolPolicyEntry → List ToolPolicyEntry → String → Option ToolPolicyEntry
last_entry found [] id = found
last_entry found (p ∷ ps) id = last_entry (if p.tool_id == id then some p else found) ps id

get-map_entries :
    (m : Dict ToolPolicyEntry) (ps : List ToolPolicyEntry) (id : String)
    → Dict.get (map_entries m ps) id ≡ last_entry (Dict.get m id) ps id
unfolding map_entries last_entry
get-map_entries m [] id = refl
get-map_entries m (p ∷ ps) id =
    ground (arith, get-map_entries (Dict.set m p.tool_id p) ps id, Dict.get-set m p.tool_id id p)

-- What a tool's last entry means for a call.
abbrev pub Decides : Option ToolPolicyEntry → List String → String → Evaluation → Type 0
Decides entry humans id (denied e) = (p : ToolPolicyEntry) → entry ≡ some p → p.allowed ≡ false
Decides entry humans id (ok d) =
    (p : ToolPolicyEntry) × (entry ≡ some p)
    × (p.allowed ≡ true)
    × (d.requires_approval ≡ (p.requires_approval || has humans id))
    × (d.sandbox_required ≡ p.sandbox_required)
    × (d.resource_limits.timeout_seconds ≡ p.timeout_seconds)
    × (d.resource_limits.memory_bytes ≡ p.memory_bytes)
    × (d.resource_limits.pids_limit ≡ p.pids_limit)

abbrev pub entry_for : List ToolPolicyEntry → String → Option ToolPolicyEntry
entry_for = last_entry none

decide-Decides :
    (humans : List String) (id : String) (entry : Option ToolPolicyEntry)
    → Decides entry humans id (decide humans id entry)
unfolding decide
decide-Decides humans id none = λ p e. cc
decide-Decides humans id (some q) =
    if_cases (Decides (some q) humans id) q.allowed
      (λ h. (q, refl, h, refl, refl, refl, refl, refl)) (λ h p e. cc)

-- A call is let through exactly when the last entry that the configuration lists for the tool
-- allows it; approval is then required when that entry or the global list asks for it, and the
-- limits are the entry's. A tool with no entry, or whose last entry does not allow it, is denied.
pub evaluate-Decides :
    (humans : List String) (ps : List ToolPolicyEntry) (id : String)
    → Decides (entry_for ps id) humans id (evaluate (engine humans ps) id)
unfolding evaluate engine Dict.get
evaluate-Decides humans ps id =
    rw (get-map_entries [] ps id) (decide-Decides humans id (entry_for ps id))

-- `is_allowed` and `evaluate` agree.
pub is_allowed-decide :
    (e : ToolPolicyEngine) (id : String) (d : PolicyDecisionResult)
    → evaluate e id ≡ ok d
    → is_allowed e id ≡ true
unfolding is_allowed evaluate
is_allowed-decide e id d h = ground arith

map_entries-Distinct :
    (m : Dict ToolPolicyEntry) (ps : List ToolPolicyEntry)
    → Dict.Distinct m
    → Dict.Distinct (map_entries m ps)
unfolding map_entries
map_entries-Distinct m [] h = h
map_entries-Distinct m (p ∷ ps) h =
    map_entries-Distinct (Dict.set m p.tool_id p) ps (Dict.set-Distinct m p.tool_id p h)

allowed_absent :
    (m : Dict ToolPolicyEntry) (id : String)
    → Dict.get m id ≡ none
    → has (map (λ i. i.0) (keep (λ i. i.1.allowed) m)) id ≡ false
unfolding Dict.get
allowed_absent [] id h = refl
allowed_absent ((k, p) ∷ m) id h = ground (arith, allowed_absent m id)

allowed_listed :
    (m : Dict ToolPolicyEntry) (id : String)
    → Dict.Distinct m
    → has (map (λ i. i.0) (keep (λ i. i.1.allowed) m)) id
      ≡ (elim (Dict.get m id) [ none ↦ false | some policy ↦ policy.allowed ])
unfolding Dict.get
allowed_listed [] id h = refl
allowed_listed ((k, p) ∷ m) id h =
    ground (arith, allowed_listed m id h.1, allowed_absent m id, eq_iff k id)

-- The tool ids that are listed in the system prompt are exactly those of which `is_allowed` and
-- `evaluate` say yes.
pub has-get_allowed_tool_ids :
    (humans : List String) (ps : List ToolPolicyEntry) (id : String)
    → has (get_allowed_tool_ids (engine humans ps)) id ≡ is_allowed (engine humans ps) id
unfolding get_allowed_tool_ids is_allowed engine
has-get_allowed_tool_ids humans ps id =
    allowed_listed (map_entries [] ps) id (map_entries-Distinct [] ps tt)
