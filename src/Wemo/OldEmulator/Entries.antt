-- ===== src/Wemo/OldEmulator/Entries.antt =====
-- The older emulator as a table: the name, the port and the scene of each server.
use mathlib.Core.List.{map-append}
use native.Mathlib.Nat.{zero-add}
use futronix_alexa.Base.{
  ℕ, suc, ◌+◌, ◌≡◌, ◌≤◌, ◌<◌, refl, ap, sym, ◌∙◌, true, false, some, none, List, [], ◌∷◌, ◌++◌, map,
  length, get_elem?, set, c_str, ltb, if◌then◌else◌, same_bytes, Bool-cases, inl, inr, ◌⊎◌, arith,
  if_true, if_false, ltb→lt, length-append,
}
use futronix_alexa.Wemo.Emulator.{SceneCallbackHandler, server_count_limit}
use futronix_alexa.Wemo.Server.{WemoServer, new_server}
use futronix_alexa.Wemo.Server.Identity.{new_server_lem}
use futronix_alexa.Wemo.OldEmulator.{
  OldEmulator, add_server, server_index, get_device_index, replace_server,
}

pub record ServerEntry : Type 0 where
  pub name : List ℕ
  pub port : ℕ
  pub scene : ℕ

abbrev pub entry_of : WemoServer → ServerEntry
entry_of s = record { name = s.device_name; port = s.local_port; scene = s.handler.scene_no }

abbrev pub entries : List WemoServer → List ServerEntry
entries ss = map entry_of ss

-- The first entry of that name gets a new name and scene, and keeps its port.
pub rename_first : List ℕ → List ℕ → ℕ → List ServerEntry → List ServerEntry
rename_first old new scene [] = []
rename_first old new scene (e ∷ es) =
    if same_bytes e.name old
    then record e { name = new; scene = scene } ∷ es
    else e ∷ rename_first old new scene es

-- The server that the search finds is the one whose entry is renamed.
server_index_lem :
    (old : List ℕ) (new : List ℕ) (scene n : ℕ) (ss : List WemoServer)
    → ((server_index n old ss ≡ none)
        × (rename_first (c_str old) new scene (entries ss) ≡ entries ss))
      ⊎ ((i : ℕ) × (s : WemoServer) × (server_index n old ss ≡ some (n + i))
          × (get_elem? ss i ≡ some s)
          × ((t : WemoServer)
              → entry_of t ≡ record { name = new; port = s.local_port; scene = scene }
              → entries (set ss i t) ≡ rename_first (c_str old) new scene (entries ss)))
unfolding server_index rename_first
server_index_lem old new scene n [] = inl (refl, refl)
server_index_lem old new scene n (s ∷ ss) =
    elim (Bool-cases (same_bytes s.device_name (c_str old))) [
      | inl same ↦ inr (
        0,
        s,
        if_true _ _ same ∙ ap some (omega arith),
        refl,
        λ t e. ap (λ x. x ∷ entries ss) e ∙ sym (if_true _ _ same),
      )
      | inr other ↦ elim (server_index_lem old new scene (suc n) ss) [
        | inl (missing, same) ↦
            inl (if_false _ _ other ∙ missing, if_false _ _ other ∙ ap (◌∷◌ (entry_of s)) same)
        | inr (i, found, at, elem, renamed) ↦ inr (
          suc i,
          found,
          if_false _ _ other ∙ at ∙ ap some (omega arith),
          elem,
          λ t e. ap (◌∷◌ (entry_of s)) (renamed t e) ∙ sym (if_false _ _ other),
        )
      ]
    ]

-- A new server as an entry.
new_entry_lem :
    (chip_id : ℕ) (name : List ℕ) (port : ℕ) (h : SceneCallbackHandler)
    → length (c_str name) < 70
    → (s : WemoServer) × (new_server chip_id name port h ≡ some s)
      × (entry_of s ≡ record { name = c_str name; port = port; scene = h.scene_no })
new_entry_lem chip_id name port h k =
    let (s, e, named, at, handles, open') = new_server_lem chip_id name port h k in
    (s, e, ground (arith, named, at, handles))

-- `addDevice` of the older emulator, begun and with a name below 70 bytes, adds an entry to the end if
-- there are fewer than forty, and else changes nothing; so forty are never exceeded. Its result is
-- false in both cases.
pub add_server_lem :
    (chip_id : ℕ) (name : List ℕ) (port : ℕ) (h : SceneCallbackHandler) (w : OldEmulator)
    → w.enabled ≡ true
    → length (c_str name) < 70
    → length w.servers ≤ server_count_limit
    → (w' : OldEmulator) × (add_server chip_id name port h w ≡ some (w', false))
      × (length w'.servers ≤ server_count_limit)
      × (entries w'.servers ≡ (
          if ltb (length w.servers) server_count_limit
          then entries w.servers
            ++ record { name = c_str name; port = port; scene = h.scene_no } ∷ []
          else entries w.servers))
unfolding add_server
add_server_lem chip_id name port h w on k bound =
    let (s, e, shown) = new_entry_lem chip_id name port h k in
    elim (Bool-cases (ltb (length w.servers) server_count_limit)) [
      | inl more ↦ (
        record w { servers = w.servers ++ s ∷ [] },
        rw (on, more, e),
        grind (arith, length-append, ltb→lt, more),
        rw more
            (map-append entry_of w.servers (s ∷ []) ∙ ap (λ x. entries w.servers ++ x ∷ []) shown),
      )
      | inr full ↦ (w, rw (on, full), bound, rw full refl)
    ]

get_device_index_lem :
    (name : List ℕ) (w : OldEmulator)
    → w.enabled ≡ true
    → get_device_index name w ≡ server_index 0 name w.servers
unfolding get_device_index
get_device_index_lem name w on = if_true _ _ on

-- `replaceDevice` of the older emulator, begun and with a new name below 70 bytes, succeeds, and
-- its result is false. Seen as a table of names, ports and scenes, the first server of the old name
-- gets the new name and scene and keeps its port; if there is none, nothing changes.
pub replace_server_lem :
    (chip_id : ℕ) (old new : List ℕ) (h : SceneCallbackHandler) (w : OldEmulator)
    → w.enabled ≡ true
    → length (c_str new) < 70
    → (w' : OldEmulator) × (replace_server chip_id old new h w ≡ some (w', false))
      × (entries w'.servers ≡ rename_first (c_str old) (c_str new) h.scene_no (entries w.servers))
unfolding replace_server
replace_server_lem chip_id old new h w on k =
    elim (server_index_lem old (c_str new) h.scene_no 0 w.servers) [
      | inl (missing, same) ↦
          (w, rw (get_device_index_lem old w on ∙ missing, replace_server), sym same)
      | inr (i, found, at, elem, renamed) ↦
          let (s, e, shown) = new_entry_lem chip_id new found.local_port h k in
          (
            record w { servers = set w.servers i s },
            rw (get_device_index_lem old w on ∙ at ∙ ap some (zero-add i), replace_server, elem, e),
            renamed s shown,
          )
    ]
