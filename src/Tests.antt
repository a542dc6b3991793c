-- ===== src/Tests.antt =====
-- Runs of the definitions on concrete inputs, and the theorems at inputs that meet their hypotheses.
mod Fixtures
mod Listing
mod File
mod Abort
mod Clients
mod Servers
mod Log
mod Media
mod Events
mod Path
mod Range
mod Url
mod Http
mod Kv
mod Fcgi
mod Transfer
mod Auth
mod Request
mod Host
mod Body
mod Reply
mod FcgiRead
mod FcgiRequest
mod Login
mod Location
mod Expand
mod Response
