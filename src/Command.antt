-- ===== src/Command.antt =====
-- FutronixESP8266/CommandInterface.h: the commands of the dimmer, one for each scene.
pub mod Scenes
use futronix_alexa.Base.{
  ℕ, suc, Bool, true, false, List, [], ◌∷◌, get_or, ltb, ◌==◌, ℤ, pos, negsuc, if◌then◌else◌,
}
use futronix_alexa.Ir.Frame.{Pulse, off, send_futronix}

-- `_commands`
abbrev pub commands : List ℕ
commands =
    0x11 ∷ 0x12 ∷ 0x13 ∷ 0x14 ∷ 0x15 ∷ 0x16 ∷ 0x17 ∷ 0x18 ∷ 0x19 ∷ 0x10 ∷ 0x1a ∷ 0x1b ∷ 0x1c ∷ 0x3d
    ∷ 0x37 ∷ 0x35 ∷ 0x32 ∷ 0x36 ∷ 0x34 ∷ 0x3a ∷ []

-- class CommandInterface, with `_enabled` of its transmitter, which `begin` sets as well.
pub record CommandInterface : Type 0 where
  pub enabled : Bool
  pub ir_enabled : Bool

-- CommandInterface::CommandInterface, IRTransmitter::IRTransmitter
abbrev pub new_command : CommandInterface
new_command = record { enabled = false; ir_enabled = false }

-- CommandInterface::begin, and IRTransmitter::begin: the pin becomes an output, and the diode is
-- switched off.
abbrev pub begin_command : CommandInterface → CommandInterface × List Pulse
begin_command c = (record { enabled = true; ir_enabled = true }, off ∷ [])

-- The `command` that `CommandInterface::setScene` arrives at. In the last branch the source writes
-- `scene = 255`, an assignment, whose value 255 is true whatever the scene was.
unfoldable pub command_of : ℤ → ℕ
command_of (pos scene) = if ltb scene 20 then get_or commands scene 0 else 0x3f
command_of (negsuc n) = if n == 0 then 0x02 else 0x3f

-- CommandInterface::setScene
unfoldable pub set_scene : ℤ → List Pulse
set_scene scene =
    let command = command_of scene in if command == 0 then [] else send_futronix command
