-- ===== src/Metadata/Examples.antt =====
-- src/issues.rs, prs.rs and incidents.rs at concrete inputs.
use gyt.Base.{◌≡◌, ◌↔◌, refl, [], ◌∷◌, ok, err, refs, pos}
use gyt.Text.Cuts.{Bytes, codes, eq_bytes, split_once}
use gyt.Text.Utf8.{is_utf8}
use gyt.Text.Lines.{lines}
use gyt.Text.Radix.{from_str_radix}
use gyt.Text.Trim.{starts_with, ends_with, trim, trim_from, space_len, space_len_back, reversed}
use gyt.Metadata.Limits.{check_text_field, check_bytes, check_ts, check_array, check_entries}
use gyt.Metadata.Events.{keep_events, order_events, extend_events}
use gyt.Metadata.Toml.{
  read_line, parse_toml_string, parse_toml_string_array, unescape, unescape_char, escape_char, scan,
  scan_char, scan_quoted, chars, last_item, parse_u64,
}
use gyt.Metadata.Issues as Issues
use gyt.Metadata.Issues.Codec as IssueCodec
use gyt.Metadata.Issues.Updates as IssueUpdates
use gyt.Metadata.Prs as Prs
use gyt.Metadata.Prs.Updates as PrUpdates
use gyt.Metadata.Incidents as Incidents
use gyt.Metadata.Incidents.Table as Table
use gyt.Metadata.Incidents.Updates as IncidentUpdates

abbrev opening : Issues.Event
opening = record {
  kind = Issues.open_event;
  author = codes "A";
  ts = pos 5;
  body = codes "b";
  add = [];
  remove = [];
  reason = [];
}

abbrev first_issue : Issues.Issue
first_issue = record {
  number = 1;
  kind = Issues.issue;
  title = codes "t";
  state = Issues.opened;
  author = codes "A";
  created_ts = pos 5;
  labels = [];
  assignees = [];
  mentions = [];
  events = opening ∷ [];
}

abbrev closing : Issues.Event
closing = record opening { kind = Issues.close; ts = pos 6 }

abbrev closed_issue : Issues.Issue
closed_issue = record first_issue { state = Issues.closed; events = opening ∷ closing ∷ [] }

validate_extends_iff_example :
    (Issues.validate_extends first_issue closed_issue ≡ ok tt)
    ↔ IssueUpdates.IsUpdateOf first_issue closed_issue
validate_extends_iff_example = IssueUpdates.validate_extends_iff first_issue closed_issue

closed_issue_accepted : Issues.validate_extends first_issue closed_issue ≡ ok tt
unfolding Issues.validate_extends extend_events keep_events order_events eq_bytes
closed_issue_accepted = refl

-- Events cannot be dropped.
reopened_refused :
    Issues.validate_extends closed_issue first_issue ≡ err (refs "rewind: event count decreased")
unfolding Issues.validate_extends extend_events keep_events order_events eq_bytes
reopened_refused = refl

abbrev first_pr : Prs.Pr
first_pr = record {
  number = 1;
  title = codes "t";
  state = Prs.closed;
  source_ref = codes "refs/heads/a";
  target_ref = codes "refs/heads/b";
  author = codes "A";
  created_ts = pos 5;
  labels = [];
  assignees = [];
  mentions = [];
  events = [];
}

abbrev merging : Prs.PrEvent
merging = record {
  kind = Prs.merge;
  author = codes "A";
  ts = pos 7;
  body = [];
  add = [];
  remove = [];
  reason = [];
  result = codes "id";
}

abbrev merged_pr : Prs.Pr
merged_pr = record first_pr { state = Prs.merged; events = merging ∷ [] }

validate_pr_extends_iff_example :
    (Prs.validate_extends first_pr merged_pr ≡ ok tt) ↔ PrUpdates.IsUpdateOf first_pr merged_pr
validate_pr_extends_iff_example = PrUpdates.validate_pr_extends_iff first_pr merged_pr

-- A closed request may be merged, with a merge event.
merged_pr_accepted : Prs.validate_extends first_pr merged_pr ≡ ok tt
unfolding Prs.validate_extends Prs.check_transition Prs.has_merge extend_events keep_events
    order_events eq_bytes
merged_pr_accepted = refl

abbrev first_incident : Incidents.Incident
first_incident = record {
  number = 1;
  title = codes "t";
  state = Incidents.detected;
  level = Incidents.sev1;
  incident_type = codes "outage";
  author = codes "A";
  created_ts = pos 5;
  labels = [];
  assignees = [];
  mentions = [];
  fields = [];
  events = [];
}

abbrev resolved_incident : Incidents.Incident
resolved_incident = record first_incident { state = Incidents.resolved }

validate_incident_extends_iff_example :
    (Incidents.validate_extends first_incident resolved_incident ≡ ok tt)
    ↔ IncidentUpdates.IsUpdateOf first_incident resolved_incident
validate_incident_extends_iff_example =
    IncidentUpdates.validate_incident_extends_iff first_incident resolved_incident

resolved_incident_accepted : Incidents.validate_extends first_incident resolved_incident ≡ ok tt
unfolding Incidents.validate_extends Incidents.is_allowed_transition extend_events keep_events
    order_events eq_bytes
resolved_incident_accepted = refl

abbrev pub issue_blob : Bytes
issue_blob =
    codes
      "schema_version = 1\nkind = \"issue\"\nnumber = 7\nstate = \"open\"\nlabels = [\"a,b\", \"c\"]\n\n[[event]]\nbody = \"x\\n\"\n"

abbrev pub blob_issue : Issues.Issue
blob_issue = record {
  number = 7;
  kind = Issues.issue;
  title = [];
  state = Issues.opened;
  author = [];
  created_ts = pos 0;
  labels = codes "a,b" ∷ codes "c" ∷ [];
  assignees = [];
  mentions = [];
  events =
      record {
        kind = Issues.comment;
        author = [];
        ts = pos 0;
        body = codes "x\n";
        add = [];
        remove = [];
        reason = [];
      }
      ∷ [];
}

pub issue_blob_decodes : IssueCodec.decode issue_blob ≡ ok blob_issue
unfolding IssueCodec.decode IssueCodec.decode_lines IssueCodec.decode_line IssueCodec.take_field
    IssueCodec.set_field IssueCodec.set_event_field IssueCodec.finish read_line parse_toml_string
    parse_toml_string_array unescape unescape_char escape_char scan scan_char scan_quoted chars
    last_item parse_u64 from_str_radix starts_with ends_with trim trim_from space_len space_len_back
    reversed split_once eq_bytes is_utf8 lines Issues.parse_issue_kind Issues.parse_issue_state
    Issues.parse_event_kind Issues.validate Issues.validate_events Issues.validate_event
    check_text_field check_bytes check_ts check_array check_entries
issue_blob_decodes = refl

-- A key of the table that holds an equals sign is cut there.
equals_in_key :
    Table.parse_toml_string_map (codes "{ \"a=b\" = \"c\" }") ≡ err (refs "not a quoted string")
unfolding Table.parse_toml_string_map Table.split_entries Table.split_entry Table.push_entry
    Table.read_entries parse_toml_string scan_quoted chars starts_with ends_with trim trim_from
    space_len space_len_back reversed split_once eq_bytes
equals_in_key = refl
