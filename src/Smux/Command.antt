-- ===== src/Smux/Command.antt =====
-- webtor/src/smux.rs: `SmuxCommand` and its byte.
use webtor_rs.Base.{ℕ, ◌≡◌, refl, ◌==◌, if◌then◌else◌}
use webtor_rs.Base.Outcome.{Result, ok, err}
use webtor_rs.Error.{TorError}

pub data SmuxCommand : Type 0 where
  syn fin psh nop upd : SmuxCommand

-- `self.command as u8`
abbrev pub command_byte : SmuxCommand → ℕ
command_byte SmuxCommand.syn = 0
command_byte SmuxCommand.fin = 1
command_byte SmuxCommand.psh = 2
command_byte SmuxCommand.nop = 3
command_byte SmuxCommand.upd = 4

unfoldable pub try_from : ℕ → Result TorError SmuxCommand
try_from value =
    if value == 0
    then ok SmuxCommand.syn
    else if value == 1
    then ok SmuxCommand.fin
    else if value == 2
    then ok SmuxCommand.psh
    else if value == 3
    then ok SmuxCommand.nop
    else if value == 4
    then ok SmuxCommand.upd
    else err (TorError.protocol "Invalid SMUX command")

pub try_from-command_byte : (c : SmuxCommand) → try_from (command_byte c) ≡ ok c
unfolding try_from
try_from-command_byte SmuxCommand.syn = refl
try_from-command_byte SmuxCommand.fin = refl
try_from-command_byte SmuxCommand.psh = refl
try_from-command_byte SmuxCommand.nop = refl
try_from-command_byte SmuxCommand.upd = refl
