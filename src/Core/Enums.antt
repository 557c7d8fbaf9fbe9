-- ===== src/Core/Enums.antt =====
-- era/core/enums.py. A `StrEnum` member is a constructor.
use era_ai.Prelude.{String, Bool, true, false}

pub data RiskLevel : Type 0 where
  safe sensitive communication mutating financial booking destructive forbidden : RiskLevel

pub data Decision : Type 0 where
  allow confirm confirm_strong deny : Decision

pub data Outcome : Type 0 where
  authorized pending executed failed rejected denied_by_policy denied_by_user expired : Outcome

pub RiskLevel-discrete : Discrete RiskLevel
RiskLevel-discrete = hlevel

pub Decision-discrete : Discrete Decision
Decision-discrete = hlevel

-- `level is RiskLevel.FORBIDDEN`
abbrev pub is_forbidden : RiskLevel → Bool
is_forbidden forbidden = true
is_forbidden _ = false

-- `a == b` on risk levels
abbrev pub same_level : RiskLevel → RiskLevel → Bool
same_level safe safe = true
same_level sensitive sensitive = true
same_level communication communication = true
same_level mutating mutating = true
same_level financial financial = true
same_level booking booking = true
same_level destructive destructive = true
same_level forbidden forbidden = true
same_level _ _ = false

-- `decision == Decision.CONFIRM_STRONG`
abbrev pub is_strong : Decision → Bool
is_strong confirm_strong = true
is_strong _ = false

-- `level in {FINANCIAL, BOOKING}`
abbrev pub is_financial_or_booking : RiskLevel → Bool
is_financial_or_booking financial = true
is_financial_or_booking booking = true
is_financial_or_booking _ = false

-- The text of a risk level.
unfoldable pub level_value : RiskLevel → String
level_value safe = "SAFE"
level_value sensitive = "SENSITIVE"
level_value communication = "COMMUNICATION"
level_value mutating = "MUTATING"
level_value financial = "FINANCIAL"
level_value booking = "BOOKING"
level_value destructive = "DESTRUCTIVE"
level_value forbidden = "FORBIDDEN"

unfoldable pub decision_value : Decision → String
decision_value allow = "ALLOW"
decision_value confirm = "CONFIRM"
decision_value confirm_strong = "CONFIRM_STRONG"
decision_value deny = "DENY"

unfoldable pub outcome_value : Outcome → String
outcome_value authorized = "AUTHORIZED"
outcome_value pending = "PENDING"
outcome_value executed = "EXECUTED"
outcome_value failed = "FAILED"
outcome_value rejected = "REJECTED"
outcome_value denied_by_policy = "DENIED_BY_POLICY"
outcome_value denied_by_user = "DENIED_BY_USER"
outcome_value expired = "EXPIRED"
