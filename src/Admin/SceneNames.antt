-- ===== src/Admin/SceneNames.antt =====
-- FutronixESP8266::getAllSceneNames and AdminServer::handleGetSceneNames: the list of names that the
-- server sends.
use mathlib.Core.List.{append-nil}
use futronix_alexa.Base.{
  length-append, ℕ, zero, suc, ◌+◌, ◌*◌, ◌≡◌, ◌≤◌, ◌<◌, refl, sym, ap, subst, ◌∙◌, false, some,
  List, [], ◌∷◌, ◌++◌, append_assoc, length, get_or, codes, c_str, arith, lt→ltb, if_true, Pointer,
  deref, decimal, decimal_loop,
}
use futronix_alexa.Eeprom.Api.{Eeprom, Documented}
use futronix_alexa.Storage.Entry.Truncates.{IsText, held}
use futronix_alexa.Storage.Table.{Raw}
use futronix_alexa.Storage.Table.View.{View, fetch, IsRaw}
use futronix_alexa.Storage.Database.{
  Database, get_scene_count, get_scene_name, max_scenes, record_count, record_fixed_size,
}
use futronix_alexa.Storage.Database.Refines.{IsRunning, Becomes, look, get_data_lem, deref_text}
use futronix_alexa.App.{names_loop, get_all_scene_names}
use futronix_alexa.Admin.{lines_loop, handle_get_scene_names}

-- Pointers to texts, which are the strings from index `n` on.
abbrev pub AreTexts : List Pointer → ℕ → List (List ℕ) → Type 0
AreTexts [] n strings = Unit
AreTexts (p ∷ ps) n strings =
    IsText record_fixed_size p × (held p ≡ get_or strings n []) × AreTexts ps (suc n) strings

-- The line of scene `n`, and the lines of `k` scenes from scene `n` on.
abbrev pub line : ℕ → List ℕ → List ℕ
line n name = decimal (n + 1) ++ codes ":" ++ name ++ codes "\n"

pub report : ℕ → ℕ → List (List ℕ) → List ℕ
report zero n strings = []
report (suc k) n strings = line n (get_or strings n []) ++ report k (suc n) strings

-- The number of a scene below nine has one digit.
decimal_digit : (n : ℕ) → n < 9 → decimal (n + 1) ≡ (48 + (n + 1)) ∷ []
unfolding decimal_loop
decimal_digit n h = ground arith

line_short :
    (n : ℕ) (name : List ℕ) → n < 9 → length name < record_fixed_size → length (line n name) < 53
line_short n name h k =
    let tail = length-append name (codes "\n") in
    omega
      (arith, ap length (ap (λ d. d ++ codes ":" ++ name ++ codes "\n") (decimal_digit n h)), tail)

-- The records from `n` on are read afresh, `k` of them.
unfoldable pub fetch_names : ℕ → ℕ → View → View
fetch_names zero n v = v
fetch_names (suc k) n v = fetch_names k (suc n) (fetch n v)

module _ {S : Type 0} {lib : Eeprom S} (doc : Documented lib) {raw : Raw} (honest : IsRaw raw) where
  -- The names of scenes that the database has, each read from the EEPROM.
  names_loop_lem :
      (k n : ℕ) (d : Database S)
      → IsRunning doc d
      → n + k ≤ record_count
      → (ps : List Pointer) × (d' : Database S) × (names_loop lib raw k n d ≡ some (ps, d'))
        × Becomes doc d' (fetch_names k n (look doc d))
        × (length ps ≡ k)
        × AreTexts ps n (look doc d).in_rom
  unfolding names_loop get_scene_name fetch_names
  names_loop_lem zero n d r h = ([], d, refl, record { running = r; looks = refl }, refl, tt)
  names_loop_lem (suc k) n d r h =
      let (p, d1, e1, string, text, b) = get_data_lem doc honest n false d r (omega arith) in
      let (ps, d2, e2, b2, many, texts) = names_loop_lem k (suc n) d1 b.running (omega arith) in
      (
        p ∷ ps,
        d2,
        rw (if_true {b = d.enabled} _ _ r.on, e1, e2),
        record { running = b2.running; looks = b2.looks ∙ ap (fetch_names k (suc n)) b.looks },
        ap suc many,
        (text, string, subst (AreTexts ps (suc n)) (ap (λ (w : View). w.in_rom) b.looks) texts),
      )

held_short : (n : ℕ) (p : Pointer) → IsText n p → length (held p) < n
held_short n Pointer.null t = absurd t
held_short n Pointer.wild t = absurd t
held_short n (Pointer.block m) t = t.1

-- One line that fits.
lines_step :
    (p : Pointer) (ps : List Pointer) (room n : ℕ) (text m name : List ℕ)
    → deref p ≡ some m
    → c_str m ≡ name
    → length (line n name) < 100
    → length text + length (line n name) < room
    → lines_loop room n (p ∷ ps) text ≡ lines_loop room (suc n) ps (text ++ line n name)
unfolding lines_loop
lines_step p ps room n text m name read same short fits = rw (
  read,
  same,
  lt→ltb (length (line n name)) 100 short,
  lt→ltb (length text + length (line n name)) room fits,
)

-- The lines fit their buffers.
lines_loop_lem :
    (ps : List Pointer) (room n : ℕ) (text : List ℕ) (strings : List (List ℕ))
    → AreTexts ps n strings
    → n + length ps ≤ 9
    → length text + 53 * length ps < room
    → lines_loop room n ps text ≡ some (text ++ report (length ps) n strings)
unfolding lines_loop report
lines_loop_lem [] room n text strings a h k = ap some (sym (append-nil text))
lines_loop_lem (p ∷ ps) room n text strings a h k =
    let (m, read, string) = deref_text record_fixed_size p a.0 in
    let name = get_or strings n [] in
    let same : c_str m ≡ name = string ∙ a.1 in
    let short : length (line n name) < 53 =
      line_short n name (omega arith) (omega (arith, held_short 50 p a.0, ap length a.1)) in
    let grown = length-append text (line n name) in
    lines_step p ps room n text m name read same (omega (arith, short)) (omega (arith, short))
    ∙ lines_loop_lem ps room (suc n) (text ++ line n name) strings a.2 (omega arith)
        (omega (arith, short, grown))
    ∙ ap some (append_assoc text (line n name) (report (length ps) (suc n) strings))

module _ {S : Type 0} {lib : Eeprom S} (doc : Documented lib) {raw : Raw} (honest : IsRaw raw) where
  -- On a running database the request for the scene names is answered with code 200 and a line for
  -- each of the five scenes: its number from 1 on, a colon, and its name as it stands on the
  -- EEPROM. The buffers of 100 and 500 bytes are long enough.
  pub handle_get_scene_names_lem :
      (d : Database S)
      → IsRunning doc d
      → (d' : Database S) × (handle_get_scene_names lib raw d
          ≡ some (record { code = 200; body = report max_scenes 0 (look doc d).in_rom }, d'))
        × Becomes doc d' (fetch_names max_scenes 0 (look doc d))
  unfolding handle_get_scene_names get_all_scene_names get_scene_count
  handle_get_scene_names_lem d r =
      let (ps, d', e, b', many, texts) = names_loop_lem doc honest max_scenes 0 d r (omega arith) in
      let lines =
        lines_loop_lem ps 500 0 [] (look doc d).in_rom texts (omega (arith, many))
          (omega (arith, many)) in
      (d', rw (if_true {b = d.enabled} max_scenes 0 r.on, e, lines, many), b')
