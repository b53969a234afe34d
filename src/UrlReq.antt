-- ===== src/UrlReq.antt =====
-- src/url_req.c: requests that curl processes carry out, as a state machine over the list of active requests.
mod State
mod Headers
mod Process
mod Options
mod Steps
mod Start
mod Add
mod Control
mod Alive
mod Starts
mod Connected
mod Frees
mod Handle
mod Finish
mod Accepts
mod Adds
mod Listed
mod Consistent
mod Preserved
mod Runs
mod Taken
mod Examples
