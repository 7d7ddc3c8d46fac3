-- ===== src/Message/ResultCode/Tests.antt =====
-- The conversion at a concrete code.
use iscp_rs.Base.{◌≡◌, refl, some, get, nat_eq}
use iscp_rs.Base.Int.{pos}
use iscp_rs.Message.ResultCode.{code_of, invalid_resume_token}

code_of_test : code_of (pos 94) ≡ some invalid_resume_token
unfolding code_of get
code_of_test = refl
