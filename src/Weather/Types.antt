-- ===== src/Weather/Types.antt =====
-- The states and errors of rust/adsb-weather-server/src/status.rs and src/provider.rs.
use adsb_feed.Prelude.{Option}
use adsb_feed.Time.{Duration}

pub data RateLimitScope : Type 0 where
  minutely hourly daily unknown : RateLimitScope

pub data ServiceState : Type 0 where
  idle fetching retrying rate_limited rejected disabled : ServiceState

-- What a failure means for when to ask again.
pub data ErrorClass : Type 0 where
  transient : ErrorClass
  limited : RateLimitScope → Option Duration → ErrorClass
  refused : ErrorClass
