-- ===== src/Controller.antt =====
-- chaos-tproxy-controller/src: the process that reads the configuration, prepares the network and
-- runs the proxy.
pub mod Ports
pub mod Net
pub mod Config
pub mod Shell
pub mod Commands
pub mod Iptables
pub mod Routes
pub mod Setup
pub mod Packets
pub mod Stdio
pub mod Bridge
pub mod Proxy
pub mod ConfigServer
pub mod CommandLine
