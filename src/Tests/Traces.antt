-- ===== src/Tests/Traces.antt =====
-- A trace buffer of two entries, and the alarms of a trace that is masked by time.
use ipm_nci.Base.{◌≡◌, refl, List, [], ◌∷◌, arith}
use ipm_nci.Trace.Record.{trace_all, Records, trace_all-recorded}
use ipm_nci.Trace.{TraceEntry, Tracer, Timer, deliver, handler_tron, mask_time_tron}

abbrev an_entry : TraceEntry
an_entry = record { key = 7; t = 1; hpm = [] }

abbrev three : List TraceEntry
three = an_entry ∷ record an_entry { t = 2 } ∷ record an_entry { t = 3 } ∷ []

abbrev empty_buffer : Tracer
empty_buffer = record {
  flags = 0x80000000;
  trc_count = 0;
  trc_count_max = 2;
  trc_buf = an_entry ∷ an_entry ∷ [];
}

trace_all-recorded_example : Records three empty_buffer (trace_all three empty_buffer)
trace_all-recorded_example =
    trace_all-recorded three empty_buffer (record { size = refl; counted = omega arith })

-- Three seconds and eight: the second alarm is counted from the first.
abbrev armed : Timer
armed = record { flags = 0; handler = handler_tron; alarm = 3; mask_time_final = 8 }

second_alarm : (deliver armed).alarm ≡ 8
unfolding deliver mask_time_tron
second_alarm = refl
