-- ===== src/Health/Classify.antt =====
-- internal/health/v3.go: what one monitor result proves.
pub mod Consistent
use sub2api_account_schedule.Base.{
  ℕ, Bool, true, false, ◌||◌, ◌++◌, List, [], ◌∷◌, Text, codes, any, contains, text_eq, trim,
  to_lower, leb, if◌then◌else◌,
}
use sub2api_account_schedule.Base.Int.{ℤ, pos, eq_ℤ, leb_ℤ}

pub data SignalClass : Type 0 where
  operational : SignalClass
  performance_slow : SignalClass
  credential_failure : SignalClass
  infrastructure_failure : SignalClass
  capacity_limited : SignalClass
  semantic_mismatch : SignalClass
  client_error : SignalClass
  model_unsupported : SignalClass
  unknown : SignalClass

-- `checked_at` is 0 for the zero time.
pub record Check : Type 0 where
  pub checked_at : ℕ
  pub status : Text
  pub http_status : ℤ
  pub message : Text
  pub latency_ms : ℤ
  pub decrypt_failed : Bool
  pub slow_threshold_ms : ℤ

pub record ClassifiedCheck : Type 0 where
  pub check : Check
  pub class : SignalClass
  pub reason_code : Text
  pub explanation : Text
  pub hard_failure : Bool
  pub counted_in_availability : Bool
  pub availability_success : Bool

abbrev pub contains_any : Text → List Text → Bool
contains_any message words = any (contains message) words

abbrev credential_words : List Text
credential_words =
    codes "unauthorized"
    ∷ codes "forbidden"
    ∷ codes "authentication failed"
    ∷ codes "invalid api key"
    ∷ codes "invalid token"
    ∷ codes "api key invalid"
    ∷ codes "credential invalid"
    ∷ codes "认证失败"
    ∷ codes "鉴权失败"
    ∷ codes "密钥无效"
    ∷ codes "令牌无效"
    ∷ []

abbrev model_words : List Text
model_words =
    codes "model not found"
    ∷ codes "model_not_found"
    ∷ codes "unknown model"
    ∷ codes "unsupported model"
    ∷ codes "model is not supported"
    ∷ codes "no available channel"
    ∷ codes "no channel available"
    ∷ codes "没有可用渠道"
    ∷ codes "无可用渠道"
    ∷ codes "模型不存在"
    ∷ codes "不支持该模型"
    ∷ []

abbrev mismatch_words : List Text
mismatch_words =
    codes "challenge mismatch"
    ∷ codes "answer mismatch"
    ∷ codes "response mismatch"
    ∷ codes "unexpected answer"
    ∷ codes "content mismatch"
    ∷ codes "测试答案不匹配"
    ∷ codes "答案不匹配"
    ∷ codes "响应内容不匹配"
    ∷ codes "内容校验失败"
    ∷ []

abbrev client_words : List Text
client_words =
    codes "context window"
    ∷ codes "context length"
    ∷ codes "maximum context"
    ∷ codes "too many tokens"
    ∷ codes "invalid parameter"
    ∷ codes "invalid_argument"
    ∷ codes "invalid request parameter"
    ∷ codes "参数错误"
    ∷ codes "参数无效"
    ∷ codes "上下文过长"
    ∷ codes "超出上下文"
    ∷ []

abbrev capacity_words : List Text
capacity_words =
    codes "rate limit"
    ∷ codes "rate_limit"
    ∷ codes "too many requests"
    ∷ codes "overloaded"
    ∷ codes "over capacity"
    ∷ codes "capacity exceeded"
    ∷ codes "限流"
    ∷ codes "请求过多"
    ∷ codes "容量不足"
    ∷ codes "上游过载"
    ∷ []

abbrev network_words : List Text
network_words =
    codes "timeout"
    ∷ codes "timed out"
    ∷ codes "deadline exceeded"
    ∷ codes "connection refused"
    ∷ codes "connection reset"
    ∷ codes "connection failed"
    ∷ codes "dial tcp"
    ∷ codes "eof"
    ∷ codes "网关错误"
    ∷ codes "连接失败"
    ∷ codes "连接被重置"
    ∷ codes "超时"
    ∷ []

-- The texts of the four statuses that `messageHasHTTPStatus` is called with.
abbrev gateway_codes : List Text
gateway_codes = codes "502" ∷ codes "503" ∷ codes "520" ∷ codes "522" ∷ []

abbrev pub message_has_http_status : Text → List Text → Bool
message_has_http_status message statuses =
    any
      (λ code.
        contains message (codes "http " ++ code)
        || contains message (codes "status " ++ code)
        || contains message (codes "status code " ++ code))
      statuses

abbrev pub finish : Check → SignalClass → Text → Text → Bool → Bool → Bool → ClassifiedCheck
finish check class code why hard counted success = record {
  check = check;
  class = class;
  reason_code = code;
  explanation = why;
  hard_failure = hard;
  counted_in_availability = counted;
  availability_success = success;
}

-- The tests, in the order in which they are made; `message` and `status` are in lower case.
unfoldable pub is_rejected : Check → Text → Bool
is_rejected check message =
    eq_ℤ check.http_status (pos 401)
    || eq_ℤ check.http_status (pos 403)
    || contains_any message credential_words

unfoldable pub is_unsupported : Text → Bool
is_unsupported message = contains_any message model_words

unfoldable pub is_mismatch : Text → Bool
is_mismatch message = contains_any message mismatch_words

unfoldable pub is_client_message : Text → Bool
is_client_message message = contains_any message client_words

unfoldable pub is_limited : Check → Text → Bool
is_limited check message = eq_ℤ check.http_status (pos 429) || contains_any message capacity_words

unfoldable pub is_unreachable : Check → Text → Bool
is_unreachable check message =
    eq_ℤ check.http_status (pos 502)
    || eq_ℤ check.http_status (pos 503)
    || eq_ℤ check.http_status (pos 520)
    || eq_ℤ check.http_status (pos 522)
    || contains_any message network_words
    || message_has_http_status message gateway_codes

unfoldable pub is_server_error : Check → Bool
is_server_error check = leb_ℤ (pos 500) check.http_status

unfoldable pub is_client_status : Check → Text → Bool
is_client_status check status =
    leb_ℤ (pos 400) check.http_status || text_eq status (codes "client_error")

unfoldable pub is_slow : Check → Text → Bool
is_slow check status =
    text_eq status (codes "degraded")
    || text_eq status (codes "performance_degraded")
    || text_eq status (codes "slow")
    || leb_ℤ (if leb_ℤ check.slow_threshold_ms (pos 0) then pos 6000 else check.slow_threshold_ms)
        check.latency_ms

unfoldable pub is_normal : Text → Bool
is_normal status =
    text_eq status (codes "operational")
    || text_eq status (codes "healthy")
    || text_eq status (codes "success")
    || text_eq status (codes "ok")

unfoldable pub is_failed : Text → Bool
is_failed status =
    text_eq status (codes "failed")
    || text_eq status (codes "error")
    || text_eq status (codes "unhealthy")

unfoldable pub classify_status : Check → Text → ClassifiedCheck
unfolding is_slow is_normal is_failed
classify_status check status =
    if is_slow check status
    then finish check performance_slow (codes "performance_slow") (codes "请求成功但响应速度偏慢") false true
        true
    else if is_normal status
    then finish check operational (codes "operational") (codes "请求正常完成") false true true
    else if is_failed status
    then finish check infrastructure_failure (codes "monitor_hard_failure") (codes "监控报告未分类的上游失败")
        true true false
    else finish check unknown (codes "unknown_signal") (codes "无法识别监控结果") false false false

unfoldable pub classify_message : Check → Text → Text → ClassifiedCheck
unfolding classify_status is_rejected is_unsupported is_mismatch is_client_message is_limited
    is_unreachable is_server_error is_client_status
classify_message check status message =
    if is_rejected check message
    then finish check credential_failure (codes "credential_rejected") (codes "上游拒绝凭据") true true
        false
    else if is_unsupported message
    then finish check model_unsupported (codes "model_unsupported") (codes "该模型不存在或没有可用渠道") false
        false false
    else if is_mismatch message
    then finish check semantic_mismatch (codes "semantic_mismatch") (codes "请求已完成但测试内容校验不一致") false
        true true
    else if is_client_message message
    then finish check client_error (codes "client_request_error") (codes "请求参数或上下文不符合上游要求") false
        false false
    else if is_limited check message
    then finish check capacity_limited (codes "capacity_limited") (codes "上游限流或容量暂时不足") false true
        false
    else if is_unreachable check message
    then finish check infrastructure_failure (codes "infrastructure_failure")
        (codes "上游网络、网关或服务连接失败") true true false
    else if is_server_error check
    then finish check infrastructure_failure (codes "upstream_server_error") (codes "上游返回服务器错误")
        true true false
    else if is_client_status check status
    then finish check client_error (codes "client_request_error") (codes "请求被上游作为客户端错误拒绝") false
        false false
    else classify_status check status

-- `ClassifyCheck`
unfoldable pub classify_check : Check → ClassifiedCheck
unfolding classify_message
classify_check check =
    if check.decrypt_failed
    then finish check credential_failure (codes "credential_decrypt_failed") (codes "监控密钥无法解密") true
        true false
    else classify_message check (to_lower (trim check.status)) (to_lower (trim check.message))
