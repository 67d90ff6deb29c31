-- ===== src/NetHelper/Codes.antt =====
-- `NetworkMessageType` of channel/uni_network_helper.h: a request and its answer are neighbours.
use lib_uart_comm_protocol_l.Prelude.{ℕ}

-- `NETWORK_HELPER_MESSAGE_BASE`
abbrev pub base : ℕ
base = 2000

abbrev pub client_init : ℕ
client_init = 2000

abbrev pub server_init : ℕ
server_init = 2001

abbrev pub client_close : ℕ
client_close = 2002

abbrev pub server_close : ℕ
server_close = 2003

abbrev pub client_send : ℕ
client_send = 2004

abbrev pub server_send : ℕ
server_send = 2005

abbrev pub client_recv : ℕ
client_recv = 2006

abbrev pub server_recv : ℕ
server_recv = 2007

abbrev pub client_setoption : ℕ
client_setoption = 2008

abbrev pub server_setoption : ℕ
server_setoption = 2009

abbrev pub client_fcntl : ℕ
client_fcntl = 2010

abbrev pub server_fcntl : ℕ
server_fcntl = 2011

abbrev pub client_select_read : ℕ
client_select_read = 2012

abbrev pub server_select_read : ℕ
server_select_read = 2013

abbrev pub client_select_write : ℕ
client_select_write = 2014

abbrev pub server_select_write : ℕ
server_select_write = 2015

abbrev pub client_websock_conn : ℕ
client_websock_conn = 2016

abbrev pub server_websock_conn : ℕ
server_websock_conn = 2017

abbrev pub client_conn : ℕ
client_conn = 2018

abbrev pub server_conn : ℕ
server_conn = 2019

abbrev pub client_status_request : ℕ
client_status_request = 2020

abbrev pub server_status_response : ℕ
server_status_response = 2021

abbrev pub server_status_broadcast : ℕ
server_status_broadcast = 2022

abbrev pub client_status_response : ℕ
client_status_response = 2023

abbrev pub softap_enable_request : ℕ
softap_enable_request = 2024

abbrev pub softap_enable_response : ℕ
softap_enable_response = 2025

abbrev pub softap_disable_request : ℕ
softap_disable_request = 2026

abbrev pub softap_disable_response : ℕ
softap_disable_response = 2027

-- `CHNL_MSG_NET_CNT`
abbrev pub count : ℕ
count = 2028
