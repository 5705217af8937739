-- ===== src/Storage/Database/Numbers.antt =====
-- Database::getSceneNumber: the scene of a name.
use futronix_alexa.Base.{
  ℕ, zero, suc, ◌+◌, ◌≡◌, ◌≤◌, refl, sym, ap, ◌∙◌, false, some, List, [], get_or, c_str, same_bytes,
  strcmp_eq, if◌then◌else◌, arith, Bool-cases, inl, inr, if_true, if_false, ℤ, pos, negsuc,
}
use futronix_alexa.Eeprom.Api.{Eeprom, Documented}
use futronix_alexa.Storage.Table.{Raw, Table, get_entry}
use futronix_alexa.Storage.Table.View.{View, IsRaw}
use futronix_alexa.Storage.Database.{
  Database, find_scene, get_scene_number, max_scenes, record_count, text_at,
}
use futronix_alexa.Storage.Database.Refines.{IsRunning, look}
use futronix_alexa.Storage.Database.Texts.{fetch_text_lem}

-- The first of the `k` indices from `n` on whose string is the name, or -1.
unfoldable pub index_of_name : ℕ → ℕ → List ℕ → List (List ℕ) → ℤ
index_of_name zero n name strings = negsuc 0
index_of_name (suc k) n name strings =
    if same_bytes (c_str name) (get_or strings n [])
    then pos n
    else index_of_name k (suc n) name strings

module _ {S : Type 0} {lib : Eeprom S} (doc : Documented lib) {raw : Raw} (honest : IsRaw raw) where
  find_other :
      (k n : ℕ) (name : List ℕ) (d : Database S) (t' : Table S) (m : List ℕ)
      → get_entry lib raw n false d.eeprom ≡ some (some n, t')
      → text_at n t' ≡ some m
      → strcmp_eq name m ≡ false
      → find_scene lib raw (suc k) n name d
        ≡ find_scene lib raw k (suc n) name (record d { eeprom = t' })
  unfolding find_scene
  find_other k n name d t' m got read other = ground (arith, got, read, other)

  find_scene_lem :
      (k n : ℕ) (name : List ℕ) (d : Database S)
      → IsRunning doc d
      → n + k ≤ record_count
      → (d' : Database S) × (find_scene lib raw k n name d
          ≡ some (index_of_name k n name (look doc d).in_rom, d'))
        × IsRunning doc d'
        × ((look doc d').in_rom ≡ (look doc d).in_rom)
  unfolding find_scene index_of_name
  find_scene_lem zero n name d r h = (d, refl, r, refl)
  find_scene_lem (suc k) n name d r h =
      let (t', m, got, read, string, b) = fetch_text_lem doc honest n false d r (omega arith) in
      let d1 = record d { eeprom = t' } in
      let kept : (look doc d1).in_rom ≡ (look doc d).in_rom = ap (λ (w : View). w.in_rom) b.looks in
      let name' = c_str name in
      elim (Bool-cases (same_bytes name' (get_or (look doc d).in_rom n []))) [
        | inl same ↦ (d1, ground (arith, got, read, string, same), b.running, kept)
        | inr other ↦
            let (d2, e2, r2, kept2) = find_scene_lem k (suc n) name d1 b.running (omega arith) in
            (
              d2,
              find_other k n name d t' m got read (ap (same_bytes name') string ∙ other)
                  ∙ e2
                  ∙ ap (λ s. some (index_of_name k (suc n) name s, d2)) kept
                  ∙ ap (λ x. some (x, d2)) (sym (if_false _ _ other)),
              r2,
              kept2 ∙ kept,
            )
      ]

  -- With a zero byte in the buffer of `getEntry` behind the record: on a running database
  -- `getSceneNumber` gives the number of the first of the five scenes whose name on the EEPROM is
  -- the given one, and -1 if there is none. The names on the EEPROM stay as they are.
  pub get_scene_number_lem :
      (name : List ℕ) (d : Database S)
      → IsRunning doc d
      → (d' : Database S) × (get_scene_number lib raw name d
          ≡ some (index_of_name max_scenes 0 name (look doc d).in_rom, d'))
        × IsRunning doc d'
        × ((look doc d').in_rom ≡ (look doc d).in_rom)
  unfolding get_scene_number
  get_scene_number_lem name d r =
      let (d', e, r', kept) = find_scene_lem max_scenes 0 name d r (omega arith) in
      (d', if_true _ _ r.on ∙ e, r', kept)
