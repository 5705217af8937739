-- ===== src/Admin/Failures.antt =====
-- The requests of AdminServer.h that the firmware does not survive.
use futronix_alexa.Base.{
  ℕ, ◌≡◌, ◌≢◌, ◌<◌, ◌↔◌, ◌⊎◌, none, List, ℤ, pos, negsuc, eq_ℤ, Bool-cases, inl, inr, arith,
}
use futronix_alexa.Eeprom.Api.{Eeprom, Documented}
use futronix_alexa.Storage.Table.{Raw}
use futronix_alexa.Storage.Table.View.{IsRaw}
use futronix_alexa.App.Rename.{IsRenamable, rename_scene_overrun}
use futronix_alexa.Admin.{
  Request, get_scene_names, clear_names, rename, set_scene_to, get_current_scene,
  restart_wemo_servers, set_up, status, Firmware, handle_rename_scene, handle_request,
}
use futronix_alexa.Admin.Requests.{Panel, IsInRange, Shows, handle_request_lem}

-- An `int` from which 1 can be taken.
abbrev pub IsInt : ℤ → Type 0
IsInt (pos n) = n < 2147483648
IsInt (negsuc n) = n < 2147483647

module _ (to_int : List ℕ → ℤ) where
  -- A request that renames number 9.
  abbrev pub NamesNine : Request → Type 0
  NamesNine (rename scene name) = to_int scene ≡ pos 9
  NamesNine _ = ⊥

  -- A request whose number is such an `int`, if it renames.
  abbrev pub NamesInt : Request → Type 0
  NamesInt (rename scene name) = IsInt (to_int scene)
  NamesInt _ = Unit

-- Nine, or a number that can be renamed.
number_cases : (s : ℤ) → IsInt s → (s ≡ pos 9) ⊎ IsRenamable s
number_cases (pos n) h = elim (Bool-cases (eq_ℤ (pos n) (pos 9))) [
  | inl nine ↦ inl (ground (arith, nine))
  | inr other ↦ inr (h, ground (arith, other))
]
number_cases (negsuc n) h = inr h

module _ {S : Type 0} {lib : Eeprom S} (doc : Documented lib) {raw : Raw} (honest : IsRaw raw)
    (to_int : List ℕ → ℤ) where
  survives :
      (r : Request) (w : Firmware S) (p : Panel)
      → IsInRange to_int r
      → Shows doc w p
      → handle_request lib raw to_int r w ≢ none
  survives r w p h s n =
      let (w', e, shows, spares) = handle_request_lem doc honest to_int r w p h s in cc (n, e)

  fails :
      (scene name : List ℕ) (w : Firmware S) (p : Panel)
      → to_int scene ≡ pos 9
      → Shows doc w p
      → handle_request lib raw to_int (rename scene name) w ≡ none
  unfolding handle_request handle_rename_scene
  fails scene name w p nine s =
      rw (nine, rename_scene_overrun doc honest name w.futronix.db s.stored.running)

  -- With a zero byte in the buffer of `getEntry` behind the record: on a running database, and for
  -- any number but the least `int`, a request of the web server has no defined result exactly if it
  -- renames number 9, which is written behind the record array.
  pub handle_request-none :
      (r : Request) (w : Firmware S) (p : Panel)
      → NamesInt to_int r
      → Shows doc w p
      → (handle_request lib raw to_int r w ≡ none) ↔ NamesNine to_int r
  handle_request-none get_scene_names w p h s = (survives get_scene_names w p tt s, λ a. absurd a)
  handle_request-none clear_names w p h s = (survives clear_names w p tt s, λ a. absurd a)
  handle_request-none (rename scene name) w p h s = (
    λ n. elim (number_cases (to_int scene) h) [
      | inl nine ↦ nine
      | inr fine ↦ absurd (survives (rename scene name) w p fine s n)
    ],
    λ nine. fails scene name w p nine s,
  )
  handle_request-none (set_scene_to scene) w p h s =
      (survives (set_scene_to scene) w p tt s, λ a. absurd a)
  handle_request-none get_current_scene w p h s =
      (survives get_current_scene w p tt s, λ a. absurd a)
  handle_request-none restart_wemo_servers w p h s =
      (survives restart_wemo_servers w p tt s, λ a. absurd a)
  handle_request-none (set_up clear_db_arg ssid passwd) w p h s =
      (survives (set_up clear_db_arg ssid passwd) w p tt s, λ a. absurd a)
  handle_request-none status w p h s = (survives status w p tt s, λ a. absurd a)
