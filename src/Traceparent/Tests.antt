-- ===== src/Traceparent/Tests.antt =====
-- Runs of lib/w3c/traceparent.js.
use node_newrelic.Traceparent.{
  Traceparent, create, from_header, to_string, is_sampled, is_valid_flags, is_valid_parent_id,
  is_valid_trace_id, wrong_flags, wrong_parts,
}
use node_newrelic.Traceparent.RoundTrip.{IsWellFormed, to_string-from_header}
use node_newrelic.Shared.Text.{Text, codes, trim, trim_start, trim_end, split, is_space}
use node_newrelic.Shared.{◌≡◌, refl, inl, inr, true}

abbrev trace_id : Text
trace_id = codes "4bf92f3577b34da6a3ce929d0e0e4736"

abbrev parent_id : Text
parent_id = codes "00f067aa0ba902b7"

abbrev sampled : Traceparent
sampled = record {
  version = codes "00";
  trace_id = trace_id;
  parent_id = parent_id;
  flags = codes "01";
  flag_bits = 1;
}

program : Unit {0}
unfolding create is_valid_flags is_valid_parent_id is_valid_trace_id from_header to_string
    is_sampled trim_start trim_end split is_space
program = tt

padded : Text
padded = codes " 00-4bf92f3577b34da6a3ce929d0e0e4736-00f067aa0ba902b7-01 "

padded_header : from_header padded ≡ inr sampled
unfolding program padded
padded_header = refl

sampled_bit : is_sampled sampled ≡ true
unfolding program
sampled_bit = refl

upper_case_flags :
    create (codes "00") trace_id parent_id (codes "0A") ≡ inl (wrong_flags (codes "0A"))
unfolding program
upper_case_flags = refl

three_parts : from_header (codes "00-1-2") ≡ inl (wrong_parts 3)
unfolding program
three_parts = refl

to_string-from_header_example : (to_string sampled ≡ trim padded) × IsWellFormed sampled
to_string-from_header_example = to_string-from_header padded sampled padded_header
