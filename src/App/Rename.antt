-- ===== src/App/Rename.antt =====
-- FutronixESP8266::renameScene and clearSceneNames: what they leave in the database.
use futronix_alexa.Base.{
  ℕ, zero, suc, ltb, ltb→lt, Bool-cases, inl, inr, ◌≢◌, if◌then◌else◌, ℤ, negsuc, ◌≡◌, ◌<◌, refl,
  sym, ap, subst, ◌∙◌, true, false, some, none, List, [], arith, get_or, set, c_str, length-set,
  get_or-set_self, get_or-set_ne, pos, pred_ℤ, to_u32, same_bytes, same_bytes_refl, if_true,
  some_inj, Pointer,
}
use futronix_alexa.Eeprom.Api.{Eeprom, Documented}
use futronix_alexa.Storage.Table.{Raw, get_entry}
use futronix_alexa.Storage.Table.View.{View, IsRaw}
use futronix_alexa.Storage.Table.Fetch.{get_entry_null, get_entry_overrun}
use futronix_alexa.Storage.Database.{
  Database, record_count, max_scenes, magic_word_index, magic_word, put_data, has_been_set_up,
}
use futronix_alexa.Storage.Database.Refines.{
  IsRunning, length-entries, Becomes, look, cut, length-look_ram, clear_database_lem,
}
use futronix_alexa.Storage.Database.Texts.{has_been_set_up_lem}
use futronix_alexa.App.{rename_scene, clear_scene_names}
use futronix_alexa.Storage.Entry.Truncates.{held}
use futronix_alexa.Storage.Database.{get_scene_name}
use futronix_alexa.Storage.Database.Refines.{get_data_lem}
use futronix_alexa.App.Stores.{keep, finish, put_running, save_running, set_name_on, get_or-blank}

-- The store after `renameScene` with this number: only the numbers from 1 to 8 name a record, and the
-- store is saved in any case.
abbrev pub renamed : ℤ → List ℕ → View → View
renamed (pos zero) name v = finish v
renamed (pos (suc n)) name v = if ltb n record_count then finish (keep n name v) else finish v
renamed (negsuc n) name v = finish v

-- An `int` from which 1 can be taken, and not 9.
abbrev pub IsRenamable : ℤ → Type 0
IsRenamable (pos n) = (n < 2147483648) × (n ≢ 9)
IsRenamable (negsuc n) = n < 2147483647

module _ {S : Type 0} {lib : Eeprom S} (doc : Documented lib) {raw : Raw} (honest : IsRaw raw) where
  -- A number that names a record.
  pub rename_record :
      (n : ℕ) (name : List ℕ) (d : Database S)
      → IsRunning doc d
      → n < record_count
      → (d' : Database S) × (rename_scene lib raw (pos (suc n)) name d ≡ some d')
        × Becomes doc d' (finish (keep n name (look doc d)))
  unfolding rename_scene
  rename_record n name d r h =
      let (d1, e1, b1) =
        put_running doc honest n name d (look doc d) (record { running = r; looks = refl }) h in
      let (d2, e2, b2) = save_running doc honest d1 (keep n name (look doc d)) b1 in
      let index : to_u32 (pred_ℤ (pos (suc n))) ≡ n = ground arith in
      (d2, rw (index, set_name_on doc honest n name d r, e1) e2, b2)

  -- An index behind the record that follows the array gives NULL, and only the save is left.
  rename_null :
      (s : ℤ) (name : List ℕ) (d : Database S)
      → IsRunning doc d
      → record_count < to_u32 (pred_ℤ s)
      → (d' : Database S) × (rename_scene lib raw s name d ≡ some d')
        × Becomes doc d' (finish (look doc d))
  unfolding rename_scene put_data
  rename_null s name d r h =
      let i = to_u32 (pred_ℤ s) in
      let null' =
        get_entry_null lib raw i false d.eeprom
          (omega (arith, h, r.valid.counted, length-entries doc d r)) in
      let (d2, e2, b2) =
        save_running doc honest d (look doc d) (record { running = r; looks = refl }) in
      (d2, rw (set_name_on doc honest i name d r, null', e2), b2)

  -- With a zero byte in the buffer of `getEntry` behind the record: `renameScene` with any number
  -- but 9 and the least `int` on a running database succeeds, and leaves a running database. Seen
  -- as a store, for a number from 1 to 8 the record before that number takes the name (cut to 49
  -- bytes), and for other numbers nothing does; then the last record takes the magic word, and all
  -- of memory goes to the EEPROM. The numbers 6 and 7 are no scenes: they overwrite the Wifi name
  -- and password.
  pub rename_scene_lem :
      (s : ℤ) (name : List ℕ) (d : Database S)
      → IsRunning doc d
      → IsRenamable s
      → (d' : Database S) × (rename_scene lib raw s name d ≡ some d')
        × Becomes doc d' (renamed s name (look doc d))
  rename_scene_lem (pos zero) name d r h = rename_null (pos 0) name d r (omega arith)
  rename_scene_lem (pos (suc n)) name d r h = elim (Bool-cases (ltb n record_count)) [
    | inl few ↦ rw few (rename_record n name d r (ltb→lt n record_count few))
    | inr many ↦ rw many (rename_null (pos (suc n)) name d r (ground (arith, many, h.1)))
  ]
  rename_scene_lem (negsuc n) name d r h = rename_null (negsuc n) name d r (omega arith)

  -- With a zero byte in the buffer of `getEntry` behind the record: after a scene with index `n`
  -- below 5 was renamed on a running database, `getSceneName` gives that name back, cut to 49
  -- bytes, and `hasBeenSetUp` answers true.
  pub get_scene_name-rename_scene :
      (n : ℕ) (name : List ℕ) (d d' : Database S)
      → IsRunning doc d
      → n < max_scenes
      → rename_scene lib raw (pos (suc n)) name d ≡ some d'
      → (p : Pointer) × (d1 d2 : Database S) × (get_scene_name lib raw n d' ≡ some (p, d1))
        × (held p ≡ cut name)
        × (has_been_set_up lib raw d1 ≡ some (true, d2))
  unfolding get_scene_name
  get_scene_name-rename_scene n name d d' r h e =
      let (d0, e0, b0) = rename_record n name d r (omega arith) in
      let v = finish (keep n name (look doc d)) in
      let b = subst (λ x. Becomes doc x v) (some_inj (sym e0 ∙ e)) b0 in
      let a = (look doc d).in_ram in
      let m = set a n (cut name) in
      let la = length-set a n (cut name) in
      let many = length-look_ram doc d r in
      let (p, d1, e1, s1, t1, b1) = get_data_lem doc honest n false d' b.running (omega arith) in
      let (d2, e2, b2) = has_been_set_up_lem doc honest d1 b1.running in
      let marked : get_or (look doc d1).in_rom magic_word_index [] ≡ c_str magic_word =
        ap (λ (w : View). get_or w.in_rom magic_word_index []) b1.looks
        ∙ ap (λ (w : View). get_or w.in_rom magic_word_index []) b.looks
        ∙ get_or-set_self m 7 (cut magic_word) [] (omega arith) in
      (
        p,
        d1,
        d2,
        if_true _ _ b.running.on ∙ e1,
        s1
            ∙ ap (λ (w : View). get_or w.in_rom n []) b.looks
            ∙ get_or-set_ne m {i = 7} {j = n} (cut magic_word) [] (omega arith)
            ∙ get_or-set_self a n (cut name) [] (omega arith),
        e2
            ∙ ap (λ t. some (t, d2))
                (ap (same_bytes (c_str magic_word)) marked ∙ same_bytes_refl (c_str magic_word)),
      )

  -- `renameScene` with the number 9 on a running database reads behind the record array.
  pub rename_scene_overrun :
      (name : List ℕ) (d : Database S)
      → IsRunning doc d
      → rename_scene lib raw (pos 9) name d ≡ none
  unfolding rename_scene put_data
  rename_scene_overrun name d r =
      let over : get_entry lib raw 8 false d.eeprom ≡ none =
        subst (λ n. get_entry lib raw n false d.eeprom ≡ none)
          (r.valid.counted ∙ length-entries doc d r)
          (get_entry_overrun lib raw false d.eeprom r.valid.counted) in
      rw (set_name_on doc honest 8 name d r, over)

  -- With a zero byte in the buffer of `getEntry` behind the record: `clearSceneNames` on a running
  -- database succeeds and empties every record of the EEPROM, those of the Wifi and the magic word
  -- among them: the chip then counts as not set up.
  pub clear_scene_names_lem :
      (d : Database S)
      → IsRunning doc d
      → (d' d'' : Database S) × (clear_scene_names lib raw d ≡ some d')
        × ((i : ℕ) → get_or (look doc d').in_rom i [] ≡ [])
        × (has_been_set_up lib raw d' ≡ some (false, d''))
  unfolding clear_scene_names
  clear_scene_names_lem d r =
      let (d', e, b) = clear_database_lem doc honest false d r in
      let (d'', e', b') = has_been_set_up_lem doc honest d' b.running in
      let blank = λ (i : ℕ).
        ap (λ (w : View). get_or w.in_rom i []) b.looks ∙ get_or-blank (look doc d).in_rom i in
      (d', d'', e, blank, e' ∙ ap (λ s. some (same_bytes (c_str magic_word) s, d'')) (blank 7))
