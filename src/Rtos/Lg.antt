-- ===== src/Rtos/Lg.antt =====
-- RTOS/futronix-alexa-rtos/irsend/lg.h: `sendLG`.
pub mod Code
use futronix_alexa.Base.{ℕ, zero, suc, ◌+◌, ◌*◌, true, List, [], ◌++◌}
use futronix_alexa.Rtos.Send.{
  PinEvent, Carrier, enable_ir_out, default_duty, mark_ir, space_ir, Timing, send_data, max_arg,
}

abbrev pub lg_tick : ℕ
lg_tick = 50

abbrev pub lg_hdr_mark : ℕ
lg_hdr_mark = 160 * lg_tick

abbrev pub lg_hdr_space : ℕ
lg_hdr_space = 80 * lg_tick

abbrev pub lg_bit_mark : ℕ
lg_bit_mark = 11 * lg_tick

abbrev pub lg_one_space : ℕ
lg_one_space = 32 * lg_tick

abbrev pub lg_zero_space : ℕ
lg_zero_space = 11 * lg_tick

abbrev pub lg_rpt_space : ℕ
lg_rpt_space = 45 * lg_tick

abbrev pub lg_min_gap : ℕ
lg_min_gap = 795 * lg_tick

abbrev pub lg_min_message_length : ℕ
lg_min_message_length = 2161 * lg_tick

-- The times of a bit.
abbrev pub lg_timing : Timing
lg_timing = record {
  one_mark = lg_bit_mark;
  one_space = lg_one_space;
  zero_mark = lg_bit_mark;
  zero_space = lg_zero_space;
}

-- The gap behind a message.
abbrev pub lg_gap : ℕ
lg_gap = max_arg lg_min_message_length lg_min_gap

-- The loop of the repeat codes, with the rounds that are left.
unfoldable pub repeat_loop : ℕ → List PinEvent
repeat_loop zero = []
repeat_loop (suc n) =
    mark_ir lg_hdr_mark
    ++ (space_ir lg_rpt_space ++ (mark_ir lg_bit_mark ++ (space_ir lg_gap ++ repeat_loop n)))

-- sendLG, with the carrier that it sets up.
unfoldable pub send_lg : ℕ → ℕ → ℕ → Carrier → Carrier × List PinEvent
send_lg data' nbits repeat c = (
  enable_ir_out 38 default_duty c,
  mark_ir lg_hdr_mark
      ++ (space_ir lg_hdr_space
          ++ (send_data lg_timing data' nbits true
              ++ (mark_ir lg_bit_mark ++ (space_ir lg_gap ++ repeat_loop repeat)))),
)
