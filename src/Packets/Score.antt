-- ===== src/Packets/Score.antt =====
-- parseScore of src/parsers/score.js, behind xml2js.
use contestscore.JsMap.{JsMap, get, put}
use contestscore.Packets.Fields.{Fields, or_blank, bit}
use contestscore.Prelude.{ℕ, ◌+◌, Bool, false, ◌&&◌, List, [], ◌∷◌, ◌++◌, Option, none, some, map}
use contestscore.Prelude.Text.{Text, codes, text_eq, text_key}

-- an element of <breakdown> as textAndAttrs returns it
pub record Leaf : Type 0 where
  pub attrs : Fields
  pub text : Text

-- <dynamicresults>: its children with text, the attributes of <class>, the children of <qth>, and
-- the elements of <breakdown>
pub record Results : Type 0 where
  pub fields : Fields
  pub class_attrs : Fields
  pub qth : Fields
  pub qso : List Leaf
  pub point : List Leaf
  pub mult : List Leaf

pub record ScoreRow : Type 0 where
  pub band : Option Text
  pub mode : Option Text
  pub qsos : ℕ
  pub points : ℕ
  pub mults : Option ℕ

abbrev pub ScoreRows : Type 0
ScoreRows = JsMap Text ScoreRow

-- ${x}
unfoldable pub shown : Option Text → Text
shown none = codes "undefined"
shown (some s) = s

unfoldable pub row_key : Leaf → Text
unfolding shown
row_key el = shown (el.attrs (codes "band")) ++ b'|' ∷ shown (el.attrs (codes "mode"))

unfoldable pub new_score_row : Leaf → ScoreRow
new_score_row el = record {
  band = el.attrs (codes "band");
  mode = el.attrs (codes "mode");
  qsos = 0;
  points = 0;
  mults = none;
}

unfoldable pub row_for : Leaf → ScoreRows → ScoreRow
unfolding get row_key new_score_row
row_for el rows = elim (get (row_key el) rows) [ none ↦ new_score_row el | some row ↦ row ]

-- the row for an element, made if it is not there, after an assignment to it
unfoldable pub assign : (ScoreRow → ScoreRow) → Leaf → ScoreRows → ScoreRows
unfolding put row_key row_for
assign change el rows = put (row_key el) (change (row_for el rows)) rows

-- row.mults ?? 0
unfoldable pub or_zero : Option ℕ → ℕ
or_zero none = 0
or_zero (some n) = n

-- an element of the breakdown that is stored and sent
pub record BreakdownRow : Type 0 where
  pub row : ScoreRow
  pub is_total : Bool

unfoldable pub is_text : Option Text → Text → Bool
unfolding text_eq
is_text none s = false
is_text (some t) s = text_eq t s

unfoldable pub breakdown_row : ScoreRow → BreakdownRow
unfolding is_text
breakdown_row r = record {
  row = r;
  is_total = is_text r.band (codes "total") && is_text r.mode (codes "ALL");
}

pub record Score : Type 0 where
  pub contest : Text
  pub call : Text
  pub ops : Text
  pub power : Text
  pub assisted : ℕ
  pub transmitter : Text
  pub category_ops : Text
  pub category_bands : Text
  pub category_mode : Text
  pub overlay : Text
  pub dxcc_country : Text
  pub cq_zone : Text
  pub iaru_zone : Text
  pub arrl_section : Text
  pub st_prov_oth : Text
  pub grid6 : Text
  pub score_total : ℕ
  pub soft : Text
  pub timestamp : Text
  pub breakdown : List BreakdownRow

-- `number_or_0` is `Number(s) || 0` on a string.
module _ (number_or_0 : Text → ℕ) where
  unfoldable pub set_qsos : Leaf → ScoreRow → ScoreRow
  set_qsos el r = record r { qsos = number_or_0 el.text }

  unfoldable pub set_points : Leaf → ScoreRow → ScoreRow
  set_points el r = record r { points = number_or_0 el.text }

  unfoldable pub add_mults : Leaf → ScoreRow → ScoreRow
  unfolding or_zero
  add_mults el r = record r { mults = some (or_zero r.mults + number_or_0 el.text) }

  -- a `for` loop over the elements of one kind
  unfoldable pub each : (Leaf → ScoreRow → ScoreRow) → List Leaf → ScoreRows → ScoreRows
  unfolding assign
  each change [] rows = rows
  each change (el ∷ els) rows = each change els (assign (change el) el rows)

  unfoldable pub score_rows : Results → ScoreRows
  unfolding each set_qsos set_points add_mults
  score_rows s = each add_mults s.mult (each set_points s.point (each set_qsos s.qso []))

  unfoldable pub parse_score : Results → Score
  unfolding score_rows breakdown_row or_blank bit is_text
  parse_score s = record {
    contest = or_blank (s.fields (codes "contest"));
    call = or_blank (s.fields (codes "call"));
    ops = or_blank (s.fields (codes "ops"));
    power = or_blank (s.class_attrs (codes "power"));
    assisted = bit (is_text (s.class_attrs (codes "assisted")) (codes "ASSISTED"));
    transmitter = or_blank (s.class_attrs (codes "transmitter"));
    category_ops = or_blank (s.class_attrs (codes "ops"));
    category_bands = or_blank (s.class_attrs (codes "bands"));
    category_mode = or_blank (s.class_attrs (codes "mode"));
    overlay = or_blank (s.class_attrs (codes "overlay"));
    dxcc_country = or_blank (s.qth (codes "dxcccountry"));
    cq_zone = or_blank (s.qth (codes "cqzone"));
    iaru_zone = or_blank (s.qth (codes "iaruzone"));
    arrl_section = or_blank (s.qth (codes "arrlsection"));
    st_prov_oth = or_blank (s.qth (codes "stprvoth"));
    grid6 = or_blank (s.qth (codes "grid6"));
    score_total = number_or_0 (or_blank (s.fields (codes "score")));
    soft = or_blank (s.fields (codes "soft"));
    timestamp = or_blank (s.fields (codes "timestamp"));
    breakdown = map (λ e. breakdown_row e.1) (score_rows s);
  }
