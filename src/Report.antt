-- ===== src/Report.antt =====
-- internal/report/report.go: the report on the bans of a time range, as a table of comma-separated
-- lines. `Format` of a time, in the server's time zone, is the argument `stamp`; the writer takes all that it is given.
pub mod Csv
pub mod Labels
pub mod Counts
mod Runs
use xdp_invisible_armor.Common.{
  ℕ, ◌+◌, Bool, true, false, not, ◌&&◌, ◌||◌, leb, ltb, ◌==◌, if◌then◌else◌, List, [], ◌∷◌, ◌++◌,
  map, keep, any, length, Option, none, some, Result, ok, err, Text, text_eq, codes, format,
  is_empty, ℤ,
}
use xdp_invisible_armor.Model.{
  BanState, requested, active, rejected, expired, safety_blocked, revoked, BanRequest, ScopedBan,
  User,
}
use xdp_invisible_armor.Report.Csv.{write_records}
use xdp_invisible_armor.Report.Labels.{
  utf8, Kind, ban, scoped_ban, kind_label, state_label, bool_label, dash, prefix_label, user_name,
  approval_way, scope_label, format_ttl,
}

pub record Filter : Type 0 where
  pub from : ℕ
  pub to : ℕ

pub record Row : Type 0 where
  pub kind : Kind
  pub id : ℕ
  pub target : Text
  pub scope : Text
  pub reason : Text
  pub state : BanState
  pub requester : Text
  pub approver : Text
  pub approval_way : Text
  pub override_ack : Bool
  pub requested_at : ℕ
  pub approved_at : Option ℕ
  pub expires_at : Option ℕ
  pub ttl : Text
  pub prefix_count : ℕ

-- The distinct approvers and targets are the lists of them.
pub record Summary : Type 0 where
  pub from : ℕ
  pub to : ℕ
  pub generated_at : ℕ
  pub generated_by : Text
  pub total_bans : ℕ
  pub approved : ℕ
  pub rejected : ℕ
  pub safety_blocked : ℕ
  pub override_count : ℕ
  pub approvers : List Text
  pub targets : List Text

-- The tables that the report reads.
pub record Archive : Type 0 where
  pub users : List User
  pub requests : List BanRequest
  pub scoped_bans : List ScopedBan

pub record ReadFaults : Type 0 where
  pub users_fail : Bool
  pub requests_fail : Bool
  pub scoped_fail : Bool

pub data ReportError : Type 0 where
  no_users no_requests no_scoped_bans : ReportError

abbrev pub within : Filter → ℕ → Bool
within f t = leb f.from t && leb t f.to

-- `Order("created_at asc")`, the rows of one time in the order of the table.
module _ {A : Type 0} (time : A → ℕ) where
  insert_by : A → List A → List A
  insert_by a [] = a ∷ []
  insert_by a (b ∷ bs) =
      let rest = insert_by a bs in if leb (time a) (time b) then a ∷ b ∷ bs else b ∷ rest

  unfoldable pub order_by : List A → List A
  unfolding insert_by
  order_by [] = []
  order_by (a ∷ rest) = insert_by a (order_by rest)

unfoldable pub ban_request_row : List User → BanRequest → Row
unfolding user_name approval_way format_ttl
ban_request_row users r = record {
  kind = ban;
  id = r.id;
  target = r.target;
  scope = [];
  reason = r.reason;
  state = r.state;
  requester = user_name users r.requested_by;
  approver = user_name users r.approved_by;
  approval_way = approval_way r.approved_by_policy;
  override_ack = false;
  requested_at = r.created_at;
  approved_at = r.effective_at;
  expires_at = r.expires_at;
  ttl = format_ttl r.ttl_seconds;
  prefix_count = 0;
}

unfoldable pub scoped_ban_row : List User → ScopedBan → Row
unfolding user_name scope_label format_ttl
scoped_ban_row users b = record {
  kind = scoped_ban;
  id = b.id;
  target = b.target_ip;
  scope = scope_label b;
  reason = b.reason;
  state = b.state;
  requester = user_name users b.requested_by;
  approver = user_name users b.approved_by;
  approval_way = utf8 (codes "界面审批");
  override_ack = b.override_ack;
  requested_at = b.created_at;
  approved_at = b.effective_at;
  expires_at = b.expires_at;
  ttl = format_ttl b.ttl_seconds;
  prefix_count = b.prefix_count;
}

abbrev pub add_new : Text → List Text → List Text
add_new t ts = if any (λ u. text_eq u t) ts then ts else t ∷ ts

-- The switch over the state of a row.
abbrev pub count_state : BanState → Summary → Summary
count_state active s = record s { approved = s.approved + 1 }
count_state expired s = record s { approved = s.approved + 1 }
count_state revoked s = record s { approved = s.approved + 1 }
count_state BanState.rejected s = record s { rejected = s.rejected + 1 }
count_state BanState.safety_blocked s = record s { safety_blocked = s.safety_blocked + 1 }
count_state requested s = s

abbrev pub count_rest : Row → Summary → Summary
count_rest r s = record s {
  override_count = if r.override_ack then s.override_count + 1 else s.override_count;
  approvers =
      if not (is_empty r.approver) && not (text_eq r.approver (codes "-"))
      then add_new r.approver s.approvers
      else s.approvers;
  targets = add_new r.target s.targets;
}

-- The loop of `summarize`.
unfoldable pub tally : List Row → Summary → Summary
tally [] s = s
tally (r ∷ rs) s = tally rs (count_rest r (count_state r.state s))

abbrev pub uncounted : Filter → ℕ → Text → ℕ → Summary
uncounted f total by now = record {
  from = f.from;
  to = f.to;
  generated_at = now;
  generated_by = by;
  total_bans = total;
  approved = 0;
  rejected = 0;
  safety_blocked = 0;
  override_count = 0;
  approvers = [];
  targets = [];
}

unfoldable pub summarize : Filter → List Row → Text → ℕ → Summary
unfolding tally
summarize f rows by now = tally rows (uncounted f (length rows) by now)

abbrev pub rows_of : Filter → Archive → List Row
rows_of f a =
    map (ban_request_row a.users) (
      order_by (λ (r : BanRequest). r.created_at)
        (keep (λ (r : BanRequest). within f r.created_at) a.requests))
    ++ map (scoped_ban_row a.users) (
        order_by (λ (b : ScopedBan). b.created_at)
          (keep (λ (b : ScopedBan). within f b.created_at) a.scoped_bans))

unfoldable pub build :
    ReadFaults → Filter → Text → ℕ → Archive → Result ReportError (Summary × List Row)
unfolding order_by ban_request_row scoped_ban_row summarize
build faults f by now a =
    if faults.users_fail
    then err no_users
    else if faults.requests_fail
    then err no_requests
    else if faults.scoped_fail
    then err no_scoped_bans
    else ok (summarize f (rows_of f a) by now, rows_of f a)

module _ (stamp : ℕ → Text) where
  abbrev pub time_label : Option ℕ → Text
  time_label none = codes "-"
  time_label (some t) = stamp t

  -- The lines before the table.
  unfoldable pub preamble : Summary → List (List Text)
  preamble s =
      (utf8 (codes "xdp-ban 封禁操作合规报告") ∷ [])
      ∷ (utf8 (codes "统计区间") ∷ (stamp s.from ++ (codes " ~ " ++ stamp s.to)) ∷ [])
      ∷ (utf8 (codes "导出时间") ∷ stamp s.generated_at ∷ [])
      ∷ (utf8 (codes "导出人") ∷ s.generated_by ∷ [])
      ∷ (utf8 (codes "封禁总数") ∷ format s.total_bans ∷ [])
      ∷ (utf8 (codes "已批准") ∷ format s.approved ∷ [])
      ∷ (utf8 (codes "已驳回") ∷ format s.rejected ∷ [])
      ∷ (utf8 (codes "被保护集否决") ∷ format s.safety_blocked ∷ [])
      ∷ (utf8 (codes "大范围显式确认") ∷ format s.override_count ∷ [])
      ∷ (utf8 (codes "参与审批人数") ∷ format (length s.approvers) ∷ [])
      ∷ []
      ∷ []

  abbrev pub heading : List Text
  heading =
      utf8 (codes "类型")
      ∷ utf8 (codes "编号")
      ∷ utf8 (codes "目标地址")
      ∷ utf8 (codes "源范围")
      ∷ utf8 (codes "原因")
      ∷ utf8 (codes "状态")
      ∷ utf8 (codes "提交人")
      ∷ utf8 (codes "审批人")
      ∷ utf8 (codes "审批方式")
      ∷ utf8 (codes "大范围确认")
      ∷ utf8 (codes "提交时间")
      ∷ utf8 (codes "生效时间")
      ∷ utf8 (codes "到期时间")
      ∷ utf8 (codes "封禁时长")
      ∷ utf8 (codes "前缀数")
      ∷ []

  unfoldable pub line_of : Row → List Text
  unfolding kind_label state_label bool_label dash prefix_label
  line_of r =
      kind_label r.kind
      ∷ format r.id
      ∷ r.target
      ∷ r.scope
      ∷ r.reason
      ∷ state_label r.state
      ∷ dash r.requester
      ∷ dash r.approver
      ∷ dash r.approval_way
      ∷ bool_label r.override_ack
      ∷ stamp r.requested_at
      ∷ time_label r.approved_at
      ∷ time_label r.expires_at
      ∷ r.ttl
      ∷ prefix_label r.prefix_count
      ∷ []

  unfoldable pub records : Summary → List Row → List (List Text)
  unfolding preamble line_of
  records s rows = preamble s ++ (heading ∷ map line_of rows)

  -- `WriteCSV`, with the mark of UTF-8 in front.
  unfoldable pub write_csv : Summary → List Row → Text
  unfolding write_records records
  write_csv s rows = 0xef ∷ 0xbb ∷ 0xbf ∷ write_records (records s rows)
