-- ===== src/Tests.antt =====
-- Tests of the model, and the conditions of its theorems met by concrete servers and requests.
mod Data
mod Texts
mod Users
mod Channels
mod Messages
mod Requests
mod Clients
mod Processes
mod Logins
mod Viewers
